-- ===== src/Net/HeaderTable/Lookup.antt =====
-- Finding header fields after `set`.
use afl.Base.{◌≡◌, refl, ap, true, false, some, [], ◌∷◌, if◌then◌else◌, arith, Bool-cases, inl, inr}
use afl.Base.Str.{Str}
use afl.Net.HeaderTable.{HeaderTable, get, set}
use afl.Net.HeaderField.{HeaderField}
use afl.Text.Char.{case_equal}

pub case_equal_refl : (s : Str) → case_equal s s ≡ true
unfolding case_equal
case_equal_refl [] = refl
case_equal_refl (c ∷ s) = let e = case_equal_refl s in ground arith

case_equal_trans :
    (s t u : Str) → case_equal s t ≡ true → case_equal u t ≡ true → case_equal u s ≡ true
unfolding case_equal
case_equal_trans [] [] [] h k = refl
case_equal_trans [] [] (e ∷ u) h k = cc
case_equal_trans [] (d ∷ t) u h k = cc
case_equal_trans (c ∷ s) [] u h k = cc
case_equal_trans (c ∷ s) (d ∷ t) [] h k = cc
case_equal_trans (c ∷ s) (d ∷ t) (e ∷ u) h k = let r = case_equal_trans s t u in ground arith

-- A header that was set is found, with its value.
pub get-set :
    (name value : Str) (fs : HeaderTable)
    → (f : HeaderField) × (get name (set name value fs) ≡ some f) × (f.value ≡ value)
unfolding get set
get-set name value [] =
    (record { name = name; value = value }, rw (case_equal_refl name) refl, refl)
get-set name value (f ∷ fs) = elim (Bool-cases (case_equal name f.name)) [
  | inl e ↦ (record f { value = value }, rw e (rw e refl), refl)
  | inr e ↦ let (g, h, v) = get-set name value fs in (g, rw e (rw e h), v)
]

-- The other headers are found as before.
pub get-set-other :
    (other name value : Str) (fs : HeaderTable)
    → case_equal other name ≡ false
    → get other (set name value fs) ≡ get other fs
unfolding get set
get-set-other other name value [] h = rw h refl
get-set-other other name value (f ∷ fs) h = elim (Bool-cases (case_equal name f.name)) [
  | inl e ↦ elim (Bool-cases (case_equal other f.name)) [
    | inl k ↦ let t = case_equal_trans name f.name other e k in cc
    | inr k ↦ rw e (rw k refl)
  ]
  | inr e ↦ rw e (
      ap (λ x. if case_equal other f.name then some f else x) (get-set-other other name value fs h))
]
