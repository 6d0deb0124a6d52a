-- ===== src/Net/Handler.antt =====
-- afl/net/commandhandler.cpp, nullcommandhandler.cpp: what executes commands. A handler is given by what
-- it does to a state `S`.
use afl.Base.{Option, none, some, List, Bool, true, not, ◌==◌}
use afl.Base.Int.{ℤ, pos, negsuc}
use afl.Base.Str.{Str}
use afl.Except.{Result, ok, ◌>>=◌}
use afl.Data.Value.{Value, null}
use afl.Data.Access.{to_string, to_integer}

-- An operation on a handler's state, which may throw.
abbrev pub Calls : Type 0 → Type 0 → Type 0
Calls S A = S → Result A × S

pub record CommandHandler (S : Type 0) : Type 0 where
  pub call : List Value → Calls S Value
  pub call_void : List Value → Calls S (Unit {0})

-- `Optional::orElse`
abbrev pub or_else : {A : Type 0} → Option A → A → A
or_else none a = a
or_else (some b) a = b

-- The value of a call: null is `Nothing`.
unfoldable pub optional_int : Value → Result (Option ℤ)
optional_int null = ok none
optional_int v = to_integer v >>= λ n. ok (some n)

abbrev pub to_int : Value → Result ℤ
to_int v = optional_int v >>= λ o. ok (or_else o (pos 0))

-- The conversion of an int32_t to bool.
abbrev pub truth : ℤ → Bool
truth (pos n) = not (n == 0)
truth (negsuc n) = true

module _ {S : Type 0} where
  -- What is made of a call's result; the state stays as the call left it.
  abbrev pub finish : {A B : Type 0} → Calls S A → (A → Result B) → Calls S B
  finish m f s = ((m s).0 >>= f, (m s).1)

  abbrev pub call_optional_int : CommandHandler S → List Value → Calls S (Option ℤ)
  call_optional_int ch command = finish (ch.call command) optional_int

  abbrev pub call_int : CommandHandler S → List Value → Calls S ℤ
  call_int ch command = finish (call_optional_int ch command) (λ o. ok (or_else o (pos 0)))

  abbrev pub call_string : CommandHandler S → List Value → Calls S Str
  call_string ch command = finish (ch.call command) to_string

  -- `bool` from `callInt`
  abbrev pub call_bool : CommandHandler S → List Value → Calls S Bool
  call_bool ch command = finish (call_int ch command) (λ n. ok (truth n))

  -- `delete call(command)`
  abbrev pub discard : (List Value → Calls S Value) → List Value → Calls S (Unit {0})
  discard run command = finish (run command) (λ v. ok tt)

  -- `NullCommandHandler`
  abbrev pub null_handler : CommandHandler S
  null_handler = record { call = λ command s. (ok null, s); call_void = λ command s. (ok tt, s) }
