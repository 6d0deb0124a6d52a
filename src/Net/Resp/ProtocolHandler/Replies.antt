-- ===== src/Net/Resp/ProtocolHandler/Replies.antt =====
-- How the replies that wait are sent: `getOperation`, again and again.
use afl.Base.{ℕ, zero, suc, false, List, [], ◌∷◌, ◌≡◌, refl, ap, length}
use afl.Base.Str.{Str}
use afl.Net.Resp.ProtocolHandler.{
  Phase, idle, sending, failed, Connection, Operation, get_operation, pop_front, is_failed,
}

-- The replies that were not sent yet: while one is being sent, it stands in front.
abbrev pub unsent : Phase → List Str → List Str
unsent sending out = pop_front out
unsent p out = out

abbrev pub send : Str → Operation
send x = record { data_to_send = x; close = false }

abbrev pub sends : List Str → List Operation
sends [] = send [] ∷ []
sends (x ∷ out) = send x ∷ sends out

module _ {S : Type 0} where
  -- What `n` calls give, and the connection after them.
  unfoldable pub operations : ℕ → Connection S → List Operation × Connection S
  unfolding get_operation
  operations zero c = ([], c)
  operations (suc n) c =
      let (op, c') = get_operation c in let rest = operations n c' in (op ∷ rest.0, rest.1)

  with_outputs : Connection S → Phase → List Str → Connection S
  with_outputs c p out = record c { phase = p; outputs = out }

  sending_nothing :
      (c : Connection S)
      → operations 1 (with_outputs c sending []) ≡ (sends [], with_outputs c idle [])
  unfolding operations get_operation with_outputs
  sending_nothing c = refl

  sending-operations :
      (c : Connection S) (x : Str) (out : List Str)
      → operations (suc (length out)) (with_outputs c sending (x ∷ out))
        ≡ (sends out, with_outputs c idle [])
  unfolding operations get_operation with_outputs
  sending-operations c x [] = refl
  sending-operations c x (y ∷ out) = ap (λ r. (send y ∷ r.0, r.1)) (sending-operations c y out)

  idle-operations :
      (c : Connection S) (out : List Str)
      → operations (suc (length out)) (with_outputs c idle out)
        ≡ (sends out, with_outputs c idle [])
  unfolding operations get_operation with_outputs
  idle-operations c [] = refl
  idle-operations c (y ∷ out) = ap (λ r. (send y ∷ r.0, r.1)) (sending-operations c y out)

  from_phase :
      (c : Connection S) (p : Phase) (out : List Str)
      → is_failed p ≡ false
      → operations (suc (length (unsent p out))) (with_outputs c p out)
        ≡ (sends (unsent p out), with_outputs c idle [])
  from_phase c idle out h = idle-operations c out
  from_phase c sending [] h = sending_nothing c
  from_phase c sending (x ∷ out) h = sending-operations c x out
  from_phase c failed out h = cc

  -- From any point of a connection that has not failed, `getOperation` gives each reply that was not
  -- sent yet, in their order and each once, and then nothing to send: after one call more than there
  -- are replies the connection is idle and nothing waits. It never asks to close the connection.
  pub operations-unsent :
      (c : Connection S)
      → is_failed c.phase ≡ false
      → let out = unsent c.phase c.outputs in
        operations (suc (length out)) c ≡ (sends out, record c { phase = idle; outputs = [] })
  unfolding with_outputs
  operations-unsent c h = from_phase c c.phase c.outputs h
