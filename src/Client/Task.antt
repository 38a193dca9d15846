-- ===== src/Client/Task.antt =====
-- client.rs: the reading and the writing task of a connection, whole, with what they send to the
-- forward loop of the client.
use h2l.Base.{ℕ, ◌+◌, Bool, true, false, List, [], ◌∷◌, ◌++◌, some, length}
use h2l.Base.Outcome.{Outcome, ok, panic}
use h2l.Base.Exec.{Exec, pure, lift, ◌>>◌, ◌>>=◌}
use h2l.Crates.Bitflags.{Bitflags}
use h2l.Crates.BytesMut.{BytesMut}
use h2l.Crates.Channel.{Channel}
use h2l.Crates.TcpStream.{TcpStream}
use h2l.Frame.Error.{IoError}
use h2l.Frame.Any.{Frame}
use h2l.Transaction.{Transaction, frame, client_changed}
use h2l.Link.Read.{End, broken, panicked, more}
use h2l.Client.Read.{read_frames}
use h2l.Client.Write.{write_loop}
use h2l.Client.Forward.{read_closed, write_closed}
use h2l.Client.Flags.{loaded_flags, add_flags}

module _ {Sender : Type 0} (channel : Channel Sender (Transaction Sender)) where
  -- The atomics of the client, what its outgoing channel holds, the other channels, and what the task
  -- sent so far.
  pub record Worker : Type 0 where
    pub raw_flags : ℕ
    pub raw_token : ℕ
    pub outgoing : List (Transaction Sender)
    pub world : channel.World
    pub sends : List (Transaction Sender)

  -- `while self.outgoing_rx.try_recv().is_ok()`.
  unfoldable pub flush : List (Transaction Sender) → List (Transaction Sender)
  flush [] = []
  flush (tr ∷ rest) = flush rest

-- `unwrap` on what `shutdown` of a stream gives.
abbrev pub shut : Outcome IoError (Unit {0}) → Outcome ⊥ (Unit {0})
shut (ok a) = ok tt
shut _ = panic

module _ {Sender : Type 0} (bits : Bitflags) (channel : Channel Sender (Transaction Sender))
    (incoming_tx : Sender) (others : ℕ → Worker channel → Worker channel) where
  -- What other tasks do at a moment behind the sends made so far.
  abbrev pub others_after : ℕ → Worker channel → Worker channel
  others_after k s = record (others (length s.sends + k) s) { sends = s.sends }

  -- What other tasks do to the atomics and the channels, after the sends made so far.
  abbrev pub by_others : Worker channel → Worker channel
  by_others s = record (others (length s.sends) s) { sends = s.sends }

  -- A send that fails is only logged.
  unfoldable pub send_incoming : Transaction Sender → Exec (Worker channel) ⊥ (Unit {0})
  send_incoming tr s =
      let (r, w) = channel.send incoming_tx tr s.world in
      (ok tt, record s { world = w; sends = s.sends ++ (tr ∷ []) })

  -- The frames that were read, one after the other, each under the token that the client then has.
  unfoldable pub send_frames : List Frame → Exec (Worker channel) ⊥ (Unit {0})
  send_frames [] = pure tt
  send_frames (f ∷ rest) =
      (λ s. send_incoming (frame f (some (by_others s).raw_token)) (by_others s))
      >> send_frames rest

  -- The ends of both tasks: `add_flags` loads the flags and then stores them with one more, and `flags`
  -- loads them again for the report; other tasks go on before each of the three.
  unfoldable pub report : ℕ → Exec (Worker channel) ⊥ (Unit {0})
  report val s =
      let s1 : Worker channel = others_after 1 s in
      let s2 : Worker channel = others_after 2 s1 in
      let s3 : Worker channel =
        others_after 3 (record s2 { raw_flags = add_flags bits val s1.raw_flags }) in
      send_incoming (client_changed (loaded_flags bits s3.raw_flags) s3.raw_token) s3

  -- Behind the loop, with what `stream.shutdown(Shutdown::Both)` gives; a panic in the loop ends
  -- the task before.
  unfoldable pub at_end : Outcome IoError (Unit {0}) → End → Exec (Worker channel) ⊥ (Unit {0})
  at_end shutdown broken = lift (shut shutdown) >> report read_closed
  at_end shutdown panicked = lift panic
  at_end shutdown more = pure tt

  -- `read_loop`, whole.
  unfoldable pub read_task :
      (buf : BytesMut) (tcp : TcpStream)
      → (tcp.Conn → Outcome IoError (Unit {0}))
      → ℕ
      → tcp.Conn
      → Exec (Worker channel) ⊥ (Unit {0})
  read_task buf tcp shutdown fuel c =
      let (frames, (end, c')) = read_frames bits buf tcp fuel c in
      send_frames frames >> at_end (shutdown c') end

  unfoldable pub flush_outgoing : Exec (Worker channel) ⊥ (Unit {0})
  flush_outgoing s =
      let s1 : Worker channel = by_others s in
      (ok tt, record s1 { outgoing = flush channel s1.outgoing })

  -- Behind the write loop, if it has ended.
  unfoldable pub leave : Bool → Exec (Worker channel) ⊥ Bool
  leave true = (flush_outgoing >> report write_closed) >> pure true
  leave false = pure false

  -- `write_loop`, whole; `false` when the loop waits for more.
  unfoldable pub write_task :
      (buf : BytesMut) (tcp : TcpStream)
      → List ((tcp.Conn → tcp.Conn) × Transaction Sender)
      → tcp.Conn
      → Exec (Worker channel) ⊥ Bool
  write_task buf tcp received c =
      let (r, c') = write_loop bits buf tcp received c in lift r >>= leave
