-- ===== src/Server/Accept.antt =====
-- server.rs: `accept_loop`, and how `spawn` ends.
use h2l.Base.{ℕ, List, [], ◌∷◌, ◌++◌, Bool, true, false}
use h2l.Base.Outcome.{Outcome, ok}
use h2l.Base.Exec.{Exec, pure, ◌>>=◌, ◌>>◌}
use h2l.Crates.Bitflags.{Bitflags}
use h2l.Crates.Channel.{Channel}
use h2l.Frame.Error.{IoError}
use h2l.Transaction.{Transaction, new_link, server_changed}
use h2l.Server.Forward.{Server, accept_loop_exited, call, forward_loop}

abbrev pub terminated : ℕ
terminated = 0x3

-- What `future::timeout(.., incoming.next())` gives: a stream, with its descriptor and the channel
-- that its link makes; an error or the end of the listener; or no answer in time, with the value
-- that `exit_accept_loop` then has.
pub data Incoming (Sender : Type 0) : Type 0 where
  arrived : ℕ → Sender → Incoming Sender
  failed : IoError → Incoming Sender
  ended : Incoming Sender
  timed_out : Bool → Incoming Sender

module _ {Sender : Type 0} (channel : Channel Sender (Transaction Sender)) (trans_tx : Sender) where
  open channel use {World, send}

  -- The channels, and what the loop sent to the forward loop so far.
  pub record Acceptor : Type 0 where
    pub world : World
    pub sends : List (Transaction Sender)

  -- A send that fails is only logged.
  unfoldable pub send_trans : Transaction Sender → Exec Acceptor IoError (Unit {0})
  send_trans tr s =
      let (r, w) = send trans_tx tr s.world in
      (ok tt, record s { world = w; sends = s.sends ++ (tr ∷ []) })

  abbrev by_others : (World → World) → Exec Acceptor IoError (Unit {0})
  by_others g s = (ok tt, record s { world = g s.world })

  -- The loop over what the listener gives, each with what the other tasks did before; `false` when
  -- what is given runs out before the loop ends.
  unfoldable pub accept_all : List ((World → World) × Incoming Sender) → Exec Acceptor IoError Bool
  accept_all [] = pure false
  accept_all ((others, arrived socket outgoing_tx) ∷ rest) =
      by_others others
      >> (send_trans (new_link (record { socket = socket; outgoing_tx = outgoing_tx }))
          >> accept_all rest)
  accept_all ((others, failed e) ∷ rest) = by_others others >> pure true
  accept_all ((others, ended) ∷ rest) = by_others others >> pure true
  accept_all ((others, timed_out true) ∷ rest) = by_others others >> pure true
  accept_all ((others, timed_out false) ∷ rest) = by_others others >> accept_all rest

  -- Behind the loop.
  unfoldable pub leave : Bool → Exec Acceptor IoError Bool
  leave true = send_trans (server_changed accept_loop_exited) >> pure true
  leave false = pure false

  -- `bound` is what `TcpListener::bind` gives; its error leaves the function at once.
  unfoldable pub accept_loop :
      Outcome IoError (Unit {0})
      → List ((World → World) × Incoming Sender)
      → Exec Acceptor IoError Bool
  accept_loop bound incoming = do λ s. (bound, s); left ← accept_all incoming; leave left

-- `spawn`, behind the accept loop: the forward loop, and then the last call of the closure.
module _ {Sender : Type 0} (bits : Bitflags) (channel : Channel Sender (Transaction Sender))
    (f : Transaction Sender → channel.World → channel.World) where
  unfoldable pub finish :
      List ((channel.World → channel.World) × Transaction Sender)
      → Exec (Server bits channel) ⊥ (Unit {0})
  finish received =
      forward_loop bits channel f received >> call bits channel f (server_changed terminated)
