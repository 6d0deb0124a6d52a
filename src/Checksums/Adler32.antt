-- ===== src/Checksums/Adler32.antt =====
-- afl/checksums/adler32.cpp: two sums modulo 65521, where the division is put off as long as it may.
pub mod Exact
use afl.Base.{ℕ, zero, suc, ◌+◌, ◌*◌, ◌/◌, ◌%◌, ◌^◌, List, [], ◌∷◌, ltb, if◌then◌else◌}
use afl.Base.Str.{Str}

abbrev pub base : ℕ
base = 65521

-- `(s2 << 16) | s1` of the two sums, which are less than the base.
abbrev pub combined : ℕ → ℕ → ℕ
combined s1 s2 = (s2 * 2 ^ 16 + s1) % 2 ^ 32

-- The loop over the bytes.
unfoldable pub add_loop : ℕ → ℕ → ℕ → Str → ℕ
add_loop counter s1 s2 [] = combined (s1 % base) (s2 % base)
add_loop counter s1 s2 (b ∷ s) =
    let over = ltb 5500 (counter + 1) in
    let t1 = ((if over then s1 % base else s1) + b) % 2 ^ 32 in
    let t2 = ((if over then s2 % base else s2) + t1) % 2 ^ 32 in
    add_loop (if over then 0 else counter + 1) t1 t2 s

unfoldable pub add : Str → ℕ → ℕ
add s prev = add_loop 0 (prev % 2 ^ 16) (prev / 2 ^ 16) s
