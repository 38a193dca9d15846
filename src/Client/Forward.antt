-- ===== src/Client/Forward.antt =====
-- client.rs: `on_client_changed` and `forward_loop`. The application's closure is a parameter; its
-- calls are recorded in order. The flags and the token are atomics that other tasks change.
use h2l.Base.{true, false, ℕ, List, [], ◌∷◌, ◌++◌, Bool, not, ◌&&◌, if◌then◌else◌}
use h2l.Base.Outcome.{Outcome, ok, panic}
use h2l.Base.Exec.{Exec, pure, ◌>>=◌, ◌>>◌}
use h2l.Crates.Bitflags.{Bitflags}
use h2l.Crates.Channel.{Channel, SendError, TrySendError}
use h2l.Transaction.{Token, Transaction, client_changed}

-- `ClientFlags`.
abbrev pub mantain_loop_exited : ℕ
mantain_loop_exited = 0x1

abbrev pub read_closed : ℕ
read_closed = 0x8

abbrev pub write_closed : ℕ
write_closed = 0x10

abbrev pub all_flags : ℕ
all_flags = 0x3f

pub data ForwardFlow (Sender : Type 0) : Type 0 where
  break continue : ForwardFlow Sender
  forward : Transaction Sender → ForwardFlow Sender

module _ {Sender : Type 0} (bits : Bitflags) (channel : Channel Sender (Transaction Sender)) where
  open bits use {from_bits_truncate, contains}
  open channel use {World}

  -- What the tasks of a client share.
  pub record Shared : Type 0 where
    pub raw_flags : ℕ
    pub raw_token : ℕ
    pub outgoing_tx : Sender
    pub world : World

  pub record Client : Type 0 where
    pub shared : Shared
    pub calls : List (Transaction Sender)

  unfoldable pub flags : Shared → ℕ
  flags shared = from_bits_truncate all_flags shared.raw_flags

  abbrev pub token : Shared → Token
  token shared = shared.raw_token

  -- `try_send`, which any task may call.
  unfoldable pub try_send : Transaction Sender → Exec Shared TrySendError (Unit {0})
  try_send tr shared =
      let (r, w) = channel.try_send shared.outgoing_tx tr shared.world in
      (r, record shared { world = w })

  abbrev pub sent_with :
      Outcome SendError (Unit {0}) × World → Client → Outcome ⊥ (Unit {0}) × Client
  sent_with (ok a, w) s = (ok tt, record s { shared = record s.shared { world = w } })
  sent_with (_, w) s = (panic, record s { shared = record s.shared { world = w } })

  -- `self.outgoing_tx.send(tr).await.unwrap()`.
  unfoldable pub send_outgoing : Transaction Sender → Exec Client ⊥ (Unit {0})
  send_outgoing tr s = sent_with (channel.send s.shared.outgoing_tx tr s.shared.world) s

  -- The write loop is told when only the reader was closed.
  abbrev pub is_half_closed : ℕ → Bool
  is_half_closed changed = contains changed read_closed && not (contains changed write_closed)

  unfoldable pub on_client_changed : ℕ → Token → Exec Client ⊥ (ForwardFlow Sender)
  on_client_changed changed tok s =
      if contains changed mantain_loop_exited
      then (ok break, s)
      else if is_half_closed changed
      then (send_outgoing (client_changed (flags s.shared) (token s.shared))
            >> pure (forward (client_changed changed tok)))
          s
      else (ok (forward (client_changed changed tok)), s)

  -- The `match` on the transaction that was received.
  unfoldable pub flow_of : Transaction Sender → Exec Client ⊥ (ForwardFlow Sender)
  flow_of (client_changed changed tok) = on_client_changed changed tok
  flow_of tr = pure (forward tr)

  module _ (f : Transaction Sender → Shared → Shared) where
    abbrev pub call : Transaction Sender → Exec Client ⊥ (Unit {0})
    call tr s = (ok tt, record { shared = f tr s.shared; calls = s.calls ++ (tr ∷ []) })

    abbrev pub interfere : (Shared → Shared) → Exec Client ⊥ (Unit {0})
    interfere others s = (ok tt, record s { shared = others s.shared })

    -- The `match` on the flow, before the rest of the loop.
    abbrev pub follow : ForwardFlow Sender → Exec Client ⊥ Bool → Exec Client ⊥ Bool
    follow break rest = pure true
    follow continue rest = rest
    follow (forward tr) rest = call tr >> rest

    -- The loop over what `recv` gives, each with what the other tasks did before; `false` when that runs
    -- out before the loop ends, and it waits for more.
    unfoldable pub forward_loop : List ((Shared → Shared) × Transaction Sender) → Exec Client ⊥ Bool
    forward_loop [] = pure false
    forward_loop ((others, tr) ∷ rest) = do
      interfere others
      flow ← flow_of tr
      follow flow (forward_loop rest)
