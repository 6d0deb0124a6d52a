-- ===== src/Data/Value.antt =====
-- The values of afl/data that `DefaultValueFactory` makes, but for floating-point numbers. A null
-- pointer is the value `null`. A hash holds its names with their values in order.
use afl.Base.{List, [], ◌∷◌, Bool, ℕ, zero, suc, ◌≡◌, refl, ap}
use afl.Base.Int.{ℤ}
use afl.Base.Str.{Str}

mutual
  pub data Value : Type 0 where
    null : Value
    string : Str → Value
    integer : ℤ → Value
    boolean : Bool → Value
    error : Str → Str → Value
    vector : Items → Value
    hash : Fields → Value

  -- A `Segment`.
  pub data Items : Type 0 where
    nil : Items
    cons : Value → Items → Items

  -- A `NameMap` with the `Segment` of the values.
  pub data Fields : Type 0 where
    end : Fields
    field : Str → Value → Fields → Fields

-- `createVector` takes the elements that were pushed.
unfoldable pub items : List Value → Items
items [] = nil
items (v ∷ vs) = cons v (items vs)

unfoldable pub count : Items → ℕ
count nil = zero
count (cons v vs) = suc (count vs)

unfoldable pub count_fields : Fields → ℕ
count_fields end = zero
count_fields (field k v fs) = suc (count_fields fs)

-- `pushBack`.
unfoldable pub push_back : Items → Value → Items
push_back nil v = cons v nil
push_back (cons w ws) v = cons w (push_back ws v)

-- The elements of a vector, as a `SegmentView` goes through them.
unfoldable pub values : Items → List Value
values nil = []
values (cons v vs) = v ∷ values vs

unfoldable pub append_items : Items → Items → Items
append_items nil vs = vs
append_items (cons w ws) vs = cons w (append_items ws vs)

pub append_items-push_back :
    (ws : Items) (v : Value) (vs : Items)
    → append_items (push_back ws v) vs ≡ append_items ws (cons v vs)
unfolding append_items push_back
append_items-push_back nil v vs = refl
append_items-push_back (cons w ws) v vs = ap (cons w) (append_items-push_back ws v vs)

pub append_items-nil : (ws : Items) → append_items ws nil ≡ ws
unfolding append_items
append_items-nil nil = refl
append_items-nil (cons w ws) = ap (cons w) (append_items-nil ws)
