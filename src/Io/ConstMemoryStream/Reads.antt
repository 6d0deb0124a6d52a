-- ===== src/Io/ConstMemoryStream/Reads.antt =====
-- Reading memory piece by piece.
use afl.Base.{
  ℕ, zero, suc, ◌+◌, ◌%◌, ◌^◌, ◌≤◌, ◌<◌, ◌≡◌, refl, ap, ◌∙◌, sym, List, [], ◌∷◌, ◌++◌, length, take,
  drop, arith, length-take, length-drop, take_nil,
}
use afl.Base.Str.{Str}
use afl.Io.InternalStream.{subrange}
use afl.Io.ConstMemoryStream.{ConstMemoryStream, create, read}

-- Reads into rooms of the given sizes.
unfoldable pub reads : List ℕ → ConstMemoryStream → Str × ConstMemoryStream
reads [] st = ([], st)
reads (n ∷ ns) st =
    let (got, next) = read n st in let (rest, last) = reads ns next in (got ++ rest, last)

abbrev pub total : List ℕ → ℕ
total [] = 0
total (n ∷ ns) = n + total ns

take_sum : (a b : ℕ) (xs : Str) → take a xs ++ take b (drop a xs) ≡ take (a + b) xs
take_sum zero b xs = ap (λ n. take n xs) (sum b)
  where
    sum : (b : ℕ) → b ≡ zero + b
    sum b = omega arith
take_sum (suc a) b [] = take_nil b ∙ sym (take_nil (suc a + b))
take_sum (suc a) b (x ∷ xs) =
    ap (λ t. x ∷ t) (take_sum a b xs) ∙ ap (λ n. take n (x ∷ xs)) (sum a b)
  where
    sum : (a b : ℕ) → suc (a + b) ≡ suc a + b
    sum a b = omega arith

drop_taken : (p n : ℕ) (xs : Str) → drop (p + length (take n (drop p xs))) xs ≡ drop n (drop p xs)
drop_taken zero zero xs = refl
drop_taken zero (suc n) [] = refl
drop_taken zero (suc n) (x ∷ xs) =
    ap (λ k. drop k (x ∷ xs)) (sum (length (take n xs)))
    ∙ ap (λ k. drop k xs) (plain (length (take n xs)))
    ∙ drop_taken zero n xs
  where
    sum : (k : ℕ) → zero + suc k ≡ suc k
    sum k = omega arith

    plain : (k : ℕ) → k ≡ zero + k
    plain k = omega arith
drop_taken (suc p) n [] = drop_nil (suc p + length (take n [])) ∙ sym (drop_nil n)
  where
    drop_nil : (k : ℕ) → drop {A = ℕ} k [] ≡ []
    drop_nil zero = refl
    drop_nil (suc k) = refl
drop_taken (suc p) n (x ∷ xs) =
    ap (λ k. drop k (x ∷ xs)) (sum (length (take n (drop p xs)))) ∙ drop_taken p n xs
  where
    sum : (k : ℕ) → suc p + k ≡ suc (p + k)
    sum k = omega arith

read-Inside : (n p : ℕ) (mem : Str) → p ≤ length mem → p + length (take n (drop p mem)) ≤ length mem
read-Inside n p mem h =
    let e = length-take n (drop p mem) in let d = length-drop p mem in omega (arith, e, d)

reads-from :
    (ns : List ℕ) (p : ℕ) (mem : Str)
    → length mem < 2 ^ 64
    → p ≤ length mem
    → (reads ns (record { mem = mem; pos = p })).0 ≡ take (total ns) (drop p mem)
unfolding reads read subrange
reads-from [] p mem h k = refl
reads-from (n ∷ ns) p mem h k =
    let q = p + length (take n (drop p mem)) in
    let i = read-Inside n p mem k in
    let e : q % 2 ^ 64 ≡ q = omega (arith, i, h) in
    ap (λ r. take n (drop p mem) ++ (reads ns (record { mem = mem; pos = r })).0) e
    ∙ ap (◌++◌ (take n (drop p mem)))
        (reads-from ns q mem h i ∙ ap (take (total ns)) (drop_taken p n mem))
    ∙ take_sum n (total ns) (drop p mem)

-- Pieces of any sizes, put together, are the front of the memory, and all of it where they are large enough.
pub reads-take :
    (ns : List ℕ) (mem : Str)
    → length mem < 2 ^ 64
    → (reads ns (create mem)).0 ≡ take (total ns) mem
reads-take ns mem h = reads-from ns 0 mem h (omega arith)
