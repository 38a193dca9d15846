-- ===== src/Client/Spawn.antt =====
-- client.rs: how `spawn` ends.
use h2l.Base.{ℕ, List, Bool, true, false, if◌then◌else◌}
use h2l.Base.Exec.{Exec, pure, ◌>>◌, ◌>>=◌}
use h2l.Crates.Bitflags.{Bitflags}
use h2l.Crates.Channel.{Channel}
use h2l.Transaction.{Transaction, client_changed}
use h2l.Client.Forward.{Shared, Client, token, call, interfere, forward_loop}

abbrev pub terminated : ℕ
terminated = 0x3

module _ {Sender : Type 0} (bits : Bitflags) (channel : Channel Sender (Transaction Sender))
    (f : Transaction Sender → Shared bits channel → Shared bits channel) where
  -- The mantain loop has ended, with a result that is only logged; the forward loop is awaited. Then
  -- the application is told TERMINATED under the token that the client has at that time; `false` while
  -- the forward loop waits for more.
  unfoldable pub finish :
      List ((Shared bits channel → Shared bits channel) × Transaction Sender)
      → (Shared bits channel → Shared bits channel)
      → Exec (Client bits channel) ⊥ Bool
  finish received others = forward_loop bits channel f received >>= λ ended.
      if ended
      then ((interfere bits channel f others >> (λ s.
            call bits channel f (client_changed terminated (token bits channel s.shared)) s))
          >> pure true)
      else pure false
