-- ===== src/Bits/Signed.antt =====
-- The conversions between signed and unsigned numbers that afl/bits/int*.hpp make: two's complement, for
-- a width with `half` negative numbers.
use afl.Base.{ℕ, ◌-◌, ◌*◌, ◌%◌, ◌<◌, ◌≤◌, if◌then◌else◌, ltb}
use afl.Base.Int.{ℤ, pos, negsuc, pos_part, neg_part}

-- The end of `unpack`. The conversion of a number that does not fit the signed type, which C++ leaves to
-- the implementation, keeps the bits.
abbrev pub to_signed : ℕ → ℕ → ℤ
to_signed half tmp = if ltb tmp half then pos tmp else negsuc (2 * half - 1 - tmp)

-- The conversion in `pack`.
abbrev pub to_unsigned : ℕ → ℤ → ℕ
to_unsigned half (pos n) = n % (2 * half)
to_unsigned half (negsuc n) = 2 * half - 1 - n % (2 * half)

-- What fits the signed type.
abbrev pub Fits : ℕ → ℤ → Type 0
Fits half v = (pos_part v < half) × (neg_part v ≤ half)
