-- ===== src/Container/Map.antt =====
-- afl/container/ptrmap.hpp and the `std::map` below it, with strings for keys: the entries in the
-- order of their keys. A `std::set` is the map to the one-element type.
use afl.Base.{◌≡◌, refl, Bool, true, false, Option, none, some, List, [], ◌∷◌, ℕ, arith}
use afl.Base.{if◌then◌else◌, length}
use afl.Base.Str.{Str, str_eq, str_lt, str_eq_iff}

abbrev pub Map {ℓ} : Type ℓ → Type ℓ
Map V = List (Str × V)

abbrev pub StrSet : Type 0
StrSet = Map (Unit {0})

module _ {ℓ} {V : Type ℓ} where
  -- `operator[] const`, and `find` with its comparison against `end()`.
  unfoldable pub find : Str → Map V → Option V
  find k [] = none
  find k ((j, v) ∷ m) = if str_eq k j then some v else find k m

  -- `m_data[k] = v`: replaces, or inserts at the place that the order gives.
  unfoldable pub insert : Str → V → Map V → Map V
  insert k v [] = (k, v) ∷ []
  insert k v ((j, w) ∷ m) =
      if str_eq k j
      then (k, v) ∷ m
      else if str_lt k j
      then (k, v) ∷ (j, w) ∷ m
      else (j, w) ∷ insert k v m

  -- `erase(const Key&)`: every element with that key goes.
  unfoldable pub erase : Str → Map V → Map V
  erase k [] = []
  erase k ((j, w) ∷ m) = if str_eq k j then erase k m else (j, w) ∷ erase k m

  unfoldable pub keys : Map V → List Str
  keys [] = []
  keys ((j, w) ∷ m) = j ∷ keys m

  abbrev pub contains : Str → Map V → Bool
  contains k m = elim (find k m) [ none ↦ false | some _ ↦ true ]

  abbrev pub size : Map V → ℕ
  size = length

module _ {ℓ} {V : Type ℓ} where
  pub find-insert :
      (k j : Str) (v : V) (m : Map V)
      → find j (insert k v m) ≡ (if str_eq j k then some v else find j m)
  unfolding find insert
  find-insert k j v [] = refl
  find-insert k j v ((i, w) ∷ m) =
      ground
        (arith, str_eq_iff k j, str_eq_iff j k, str_eq_iff k i, str_eq_iff j i, find-insert k j v m)

  pub find-erase :
      (k j : Str) (m : Map V) → find j (erase k m) ≡ (if str_eq j k then none else find j m)
  unfolding find erase
  find-erase k j [] = ground arith
  find-erase k j ((i, w) ∷ m) =
      ground (arith, str_eq_iff j k, str_eq_iff k i, str_eq_iff j i, find-erase k j m)
