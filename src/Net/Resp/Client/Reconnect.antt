-- ===== src/Net/Resp/Client/Reconnect.antt =====
-- How the client gets a new connection, and what it keeps from the old one.
use afl.Base.{
  ℕ, zero, suc, ◌<◌, ◌≤◌, Bool, true, false, List, [], ◌∷◌, ◌++◌, ◌≡◌, refl, sym, ◌∙◌, ap, ◌⊎◌, inl,
  inr, none, some, arith,
}
use afl.Base.Str.{Str}
use afl.Except.{file_too_short, Result, ok, err, Result-cases, file_format}
use afl.Net.Handler.{Calls}
use afl.Data.Value.{Value}
use afl.Resp.Parser
use afl.Resp.Parser.{State, root, line, number, bulk, array, short, done}
use afl.Resp.Parser.Bytes.{is_done}
use afl.Resp.Parser.Pieces.{handle_data-append}
use afl.Net.Resp.Client.{
  Mode, always, Network, Client, received, parsed_input, call, send_command, read_response,
  parse_input, attempts, reconnect, return_value,
}

abbrev pub is_error {ℓ} : {A : Type ℓ} → Result A → Bool
is_error (ok a) = false
is_error (err e) = true

module _ {X : Type 0} (net : Network X) where
  -- The state behind the network after some connects.
  abbrev pub connects : ℕ → X → X
  connects zero x = x
  connects (suc j) x = connects j (net.connect x).1

  -- Where up to `i` attempts after the first end.
  record Stops (i : ℕ) (x : X) (k : ℕ) : Type 0 where
    bound : k ≤ i
    failures : (j : ℕ) → j < k → is_error (net.connect (connects j x)).0 ≡ true
    result : attempts net i x ≡ net.connect (connects k x)
    last : (k ≡ i) ⊎ (is_error (net.connect (connects k x)).0 ≡ false)

  failures_after :
      (k : ℕ) (x : X)
      → is_error (net.connect x).0 ≡ true
      → ((j : ℕ) → j < k → is_error (net.connect (connects j (net.connect x).1)).0 ≡ true)
      → (j : ℕ) → j < suc k
      → is_error (net.connect (connects j x)).0 ≡ true
  failures_after k x e h zero b = e
  failures_after k x e h (suc j) b = h j (omega arith)

  attempts-Stops : (i : ℕ) (x : X) → (k : ℕ) × Stops i x k
  unfolding attempts
  attempts-Stops zero x = (
    0,
    record { bound = omega arith; failures = λ j b. elim b [ ]; result = refl; last = inl refl },
  )
  attempts-Stops (suc i) x = elim (Result-cases (net.connect x).0) [
    | inl (u, f) ↦ (
      0,
      record {
        bound = omega arith;
        failures = λ j b. elim b [ ];
        result = rw (f, attempts) refl;
        last = inr (rw f refl);
      },
    )
    | inr (e, f) ↦
        let (k, rest) = attempts-Stops i (net.connect x).1 in
        (
          suc k,
          record {
            bound = omega (arith, rest.bound);
            failures = failures_after k x (rw f refl) rest.failures;
            result = rw (f, attempts) rest.result;
            last = elim rest.last [ inl e' ↦ inl (ap suc e') | inr r ↦ inr r ];
          },
        )
  ]

  -- Where a reconnect ends: after `k` connects that failed, with one that succeeds or is the fifteenth.
  pub record Reconnects (c : Client X) (k : ℕ) : Type 0 where
    pub bound : k < 15
    pub failures : (j : ℕ) → j < k → is_error (net.connect (connects j c.network)).0 ≡ true
    pub result : reconnect net c ≡ (
      (net.connect (connects k c.network)).0,
      record c { network = (net.connect (connects k c.network)).1 },
    )
    pub last : (k ≡ 14) ⊎ (is_error (net.connect (connects k c.network)).0 ≡ false)

  -- `reconnect` ends for every network: it connects until the first success, 15 times at most, gives the result
  -- of the last connect, which fails only if it is the fifteenth, and changes nothing in the client but its
  -- network.
  pub reconnect-Reconnects : (c : Client X) → (k : ℕ) × Reconnects c k
  reconnect-Reconnects c =
      let (k, stops) = attempts-Stops 14 c.network in
      (
        k,
        record {
          bound = omega (arith, stops.bound);
          failures = stops.failures;
          result = ap (λ r. (r.0, record c { network = r.1 })) stops.result;
          last = stops.last;
        },
      )

abbrev pub next_piece : Calls (List Str) Str
next_piece [] = (ok [], [])
next_piece (x ∷ pieces) = (ok x, pieces)

-- A network whose `receive` gives what a list says, and then ends; all else succeeds.
abbrev pub script : Str → Network (List Str)
script name = record {
  connect = λ x. (ok tt, x);
  send = λ data' x. (ok tt, x);
  receive = next_piece;
  name = name;
}

parsed_input-live :
    {X : Type 0} (net : Network X) (c : Client X) (st : State) (rest : Str)
    → is_done st ≡ false
    → parsed_input net c (ok (st, rest)) ≡ (ok none, record c { input = rest; parser = st })
parsed_input-live net c root rest h = refl
parsed_input-live net c (line success s) rest h = refl
parsed_input-live net c (number kind sign v) rest h = refl
parsed_input-live net c (bulk n s) rest h = refl
parsed_input-live net c (array n vs p) rest h = refl
parsed_input-live net c (short s vs) rest h = refl
parsed_input-live net c (done v) rest h = cc

-- A client that waits for the reply to a command.
abbrev pub waiting : Mode → State → List Str → Client (List Str)
waiting mode st pieces = record { mode = mode; input = []; parser = st; network = pieces }

module _ (name : Str) where
  read_cut :
      (fuel x : ℕ) (xs : Str) (st : State) (mode : Mode) (more : List Str)
      → Parser.handle_data false root (x ∷ xs) ≡ ok (st, [])
      → is_done st ≡ false
      → read_response (script name) (suc (suc fuel)) (waiting mode root ((x ∷ xs) ∷ [] ∷ more))
        ≡ some (err (file_format name file_too_short), waiting mode st more)
  unfolding read_response parse_input
  read_cut fuel x xs st mode more e live =
      let c : Client (List Str) = record {
        mode = mode;
        input = x ∷ xs;
        parser = root;
        network = [] ∷ more;
      } in
      let p : parsed_input (script name) c (Parser.handle_data false root (x ∷ xs))
          ≡ (ok none, waiting mode st ([] ∷ more)) =
        ap (parsed_input (script name) c) e ∙ parsed_input-live (script name) c st [] live in
      rw (p, read_response) (rw p (rw (p, parse_input) refl))

  read_rest :
      (fuel z : ℕ) (zs : Str) (st : State) (v : Value) (rest : Str) (mode : Mode) (more : List Str)
      → Parser.handle_data false st (z ∷ zs) ≡ ok (done v, rest)
      → read_response (script name) (suc fuel) (waiting mode st ((z ∷ zs) ∷ more))
        ≡ some
            (received name v, record { mode = mode; input = rest; parser = root; network = more })
  unfolding read_response parse_input
  read_rest fuel z zs st v rest mode more e = rw (read_response, e) (rw (e, parse_input) refl)

  return_value-always :
      (r : Result Value) (rest : Str)
      → return_value
          (script name)
          (r, record { mode = always; input = rest; parser = root; network = [] })
        ≡ (r, record { mode = always; input = rest; parser = root; network = [] })
  return_value-always (ok w) rest = refl
  return_value-always (err e) rest = refl

  -- Where the server closes the connection in the middle of a reply, a client that may reconnect sends
  -- the command again, but its parser goes on where the cut reply stopped: `call` returns what the
  -- first piece of the old reply and the new reply read as in one, not what the new reply says.
  pub call-cut_reply :
      (x z : ℕ) (xs zs : Str) (command : List Value) (st : State) (v : Value) (rest : Str)
      → Parser.handle_data false root (x ∷ xs) ≡ ok (st, [])
      → is_done st ≡ false
      → Parser.handle_data false root ((x ∷ xs) ++ (z ∷ zs)) ≡ ok (done v, rest)
      → call (script name) 2 command (waiting always root ((x ∷ xs) ∷ [] ∷ (z ∷ zs) ∷ []))
        ≡ some
            (received name v, record { mode = always; input = rest; parser = root; network = [] })
  unfolding call send_command attempts
  call-cut_reply x z xs zs command st v rest e live f =
      let g : Parser.handle_data false st (z ∷ zs) ≡ ok (done v, rest) =
        sym (handle_data-append false root (x ∷ xs) (z ∷ zs) tt ∙ rw e refl) ∙ f in
      rw (read_cut 0 x xs st always ((z ∷ zs) ∷ []) e live) (
        rw (read_rest 1 z zs st v rest always [] g)
          (ap some (return_value-always (received name v) rest)))
