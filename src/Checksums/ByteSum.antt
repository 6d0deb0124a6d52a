-- ===== src/Checksums/ByteSum.antt =====
-- afl/checksums/bytesum.cpp: the sum of the bytes.
use afl.Base.{ℕ, ◌+◌, ◌%◌, ◌^◌, ◌≡◌, refl, [], ◌∷◌, ◌++◌}
use afl.Base.Str.{Str}

unfoldable pub add : Str → ℕ → ℕ
add [] prev = prev
add (b ∷ s) prev = add s ((prev + b) % 2 ^ 32)

-- The sum of two pieces, the second on top of the first, is that of both in one.
pub add-append : (s t : Str) (prev : ℕ) → add (s ++ t) prev ≡ add t (add s prev)
unfolding add
add-append [] t prev = refl
add-append (b ∷ s) t prev = add-append s t ((prev + b) % 2 ^ 32)
