-- ===== src/Except.antt =====
-- afl/except: what the code throws, and results that may be an exception.
use afl.Base.{[], ◌≡◌, refl, ◌⊎◌, inl, inr, Bool, true, false, if◌then◌else◌}
use afl.Base.Str.{Str, bytes}

-- The classes below `std::runtime_error` that the modelled code throws or catches. Those derived
-- from `FileProblemException` carry a file name or source, too. `fault` is no C++ exception: it stands
-- for an access outside of a vector, which C++ leaves undefined.
pub data Exception : Type 0 where
  remote_error : Str → Str → Exception
  file_format : Str → Str → Exception
  file_problem : Str → Str → Exception
  invalid_data : Str → Exception
  runtime_error : Str → Exception
  fault : Exception

-- `std::exception::what`.
abbrev pub what : Exception → Str
what (remote_error source msg) = msg
what (file_format source msg) = msg
what (file_problem source msg) = msg
what (invalid_data msg) = msg
what (runtime_error msg) = msg
what fault = []

pub data Result {ℓ} (A : Type ℓ) : Type ℓ where
  ok : A → Result A
  err : Exception → Result A

infixl 5 ◌>>=◌
abbrev pub ◌>>=◌ {ℓ κ} : {A : Type ℓ} {B : Type κ} → Result A → (A → Result B) → Result B
ok a >>= f = f a
err e >>= f = err e

pub bind_assoc :
    {A B C : Type 0} (r : Result A) (f : A → Result B) (g : B → Result C)
    → ((r >>= f) >>= g) ≡ (r >>= λ a. f a >>= g)
bind_assoc (ok a) f g = refl
bind_assoc (err e) f g = refl

pub bind_cong :
    {A B : Type 0} (r : Result A) (f g : A → Result B)
    → ((a : A) → f a ≡ g a)
    → (r >>= f) ≡ (r >>= g)
bind_cong (ok a) f g h = h a
bind_cong (err e) f g h = refl

pub Result-cases {ℓ} :
    {A : Type ℓ} (r : Result A) → ((a : A) × (r ≡ ok a)) ⊎ ((e : Exception) × (r ≡ err e))
Result-cases (ok a) = inl (a, refl)
Result-cases (err e) = inr (e, refl)

-- What holds of a result, where there is one.
abbrev pub OnOk : {A : Type 0} → (A → Type 0) → Result A → Type 0
OnOk P (ok a) = P a
OnOk P (err e) = Unit {0}

pub OnOk-bind :
    {A B : Type 0} (P : B → Type 0) (r : Result A) (f : A → Result B)
    → ((a : A) → OnOk P (f a))
    → OnOk P (r >>= f)
OnOk-bind P (ok a) f h = h a
OnOk-bind P (err e) f h = tt

pub OnOk-then :
    {A B : Type 0} (P : A → Type 0) (Q : B → Type 0) (r : Result A) (f : A → Result B)
    → OnOk P r
    → ((a : A) → P a → OnOk Q (f a))
    → OnOk Q (r >>= f)
OnOk-then P Q (ok a) f p h = h a p
OnOk-then P Q (err e) f p h = tt

pub OnOk-if :
    {A : Type 0} (P : A → Type 0) (b : Bool) (r s : Result A)
    → OnOk P r
    → OnOk P s
    → OnOk P (if b then r else s)
OnOk-if P true r s p q = p
OnOk-if P false r s p q = q

-- Continuations need to agree only on what the result can be.
pub bind-OnOk :
    {A B : Type 0} (P : A → Type 0) (r : Result A) (f g : A → Result B)
    → OnOk P r
    → ((a : A) → P a → f a ≡ g a)
    → (r >>= f) ≡ (r >>= g)
bind-OnOk P (ok a) f g p h = h a p
bind-OnOk P (err e) f g p h = refl

-- The untranslated texts of afl/string/messages.hpp.
abbrev pub range_error : Str
range_error = bytes "Range error"

abbrev pub invalid_operation : Str
invalid_operation = bytes "Invalid operation"

abbrev pub invalid_number : Str
invalid_number = bytes "Invalid number"

abbrev pub file_too_short : Str
file_too_short = bytes "File too short"

abbrev pub syntax_error : Str
syntax_error = bytes "Syntax error"
