-- ===== src/Composition/Endless.antt =====
-- What the tasks of a client send to its forward loop does not end it.
use h2l.Base.{
  ℕ, ◌≡◌, refl, ap, sym, append-nil, ◌∙◌, ◌⊎◌, inl, inr, some, List, [], ◌∷◌, ◌++◌, All, Bool, true,
  false,
}
use h2l.Base.Outcome.{Outcome, ok, err, panic}
use mathlib.Core.Path.{subst}
use mathlib.Core.List.{Memᴰ}
use mathlib.Core.List.Memᴰ.{head, tail}
use h2l.Crates.Bitflags.{Bitflags}
use h2l.Crates.BytesMut.{BytesMut}
use h2l.Crates.Channel.{Channel}
use h2l.Crates.TcpStream.{TcpStream}
use h2l.Frame.Error.{IoError}
use h2l.Frame.Any.{Frame, settings}
use h2l.Transaction.{transactions, Token, Transaction, frame, client_changed}
use h2l.Link.Read.{End, broken, panicked, more}
use h2l.Link.Tasks.{in_frames}
use h2l.Client.Mantain.{Mantainer, Attempt, mantain_loop}
use h2l.Client.Announced.{Report, Announces, IsFresh, LeavesMark}
use h2l.Client.Mantained.{mantain_loop-Report}
use h2l.Client.Forward.{mantain_loop_exited, Shared, Client, forward_loop}
use h2l.Client.Forwarded.{ends, Panics, forward_loop-forwarded}
use h2l.Client.Task.{Worker, read_task, write_task}
use h2l.Client.Tasks.{
  IsConnected, Reports, Sends, Reported, read_task-in_frames_client, write_task-reported_client,
}
use h2l.Composition.Delivery.{GoesOn, is_told-GoesOn, in_frames-GoesOn, forwarded-transactions}

module _ {Sender : Type 0} (bits : Bitflags) where
  Announces-GoesOn : (new : List (Transaction Sender)) → Announces bits new → GoesOn bits new
  Announces-GoesOn [] h = tt
  Announces-GoesOn (client_changed flags token ∷ []) h = (h.1, tt)
  Announces-GoesOn (client_changed flags token ∷ frame (settings v) (some t) ∷ rest) h =
      (h.0.1, (refl, Announces-GoesOn rest h.2))
  Announces-GoesOn _ h = absurd h

  GoesOn-Memᴰ :
      {tr : Transaction Sender} (xs : List (Transaction Sender))
      → GoesOn bits xs
      → Memᴰ tr xs
      → ends bits tr ≡ false
  GoesOn-Memᴰ [] h m = elim m [ ]
  GoesOn-Memᴰ (x ∷ xs) h (head e) = ap (ends bits) e ∙ h.0
  GoesOn-Memᴰ (x ∷ xs) h (tail m) = GoesOn-Memᴰ xs h.1 m

module _ {Sender : Type 0} (bits : Bitflags) (buf : BytesMut) (tcp : TcpStream)
    (channel : Channel Sender (Transaction Sender)) (incoming_tx : Sender)
    (auto_reconnect : Bool) where
  -- A transaction that one of the tasks of a client sent to its forward loop: the mantain loop, where
  -- other tasks mark no loop as ended, and no side as closed before a connection opens; or the reading
  -- or the writing task of some connection, where other tasks mark no loop as ended and keep the token.
  pub data IsSent (tr : Transaction Sender) : Type 0 where
    by_mantain_loop :
        (attempts : List (Attempt channel tcp.Conn)) (s : Mantainer channel)
        → All (LeavesMark channel) attempts
        → IsFresh channel s
        → s.sends ≡ []
        → Memᴰ tr (mantain_loop bits buf tcp channel incoming_tx auto_reconnect attempts s).1.sends
        → IsSent tr
    by_read_task :
        (token : Token) (others : ℕ → Worker channel → Worker channel)
        (shutdown : tcp.Conn → Outcome IoError (Unit {0})) (fuel : ℕ) (c : tcp.Conn)
        (s : Worker channel)
        → ((n : ℕ) (x : Worker channel)
            → IsConnected channel token x
            → IsConnected channel token (others n x))
        → IsConnected channel token s
        → s.sends ≡ []
        → Memᴰ tr (read_task bits channel incoming_tx others buf tcp shutdown fuel c s).1.sends
        → IsSent tr
    by_write_task :
        (token : Token) (others : ℕ → Worker channel → Worker channel)
        (received : List ((tcp.Conn → tcp.Conn) × Transaction Sender)) (c : tcp.Conn)
        (s : Worker channel)
        → ((n : ℕ) (x : Worker channel)
            → IsConnected channel token x
            → IsConnected channel token (others n x))
        → IsConnected channel token s
        → s.sends ≡ []
        → Memᴰ tr (write_task bits channel incoming_tx others buf tcp received c s).1.sends
        → IsSent tr

  frames-GoesOn :
      (token : Token) (fs : List Frame) → GoesOn {Sender = Sender} bits (in_frames token fs)
  frames-GoesOn token fs =
      subst (GoesOn {Sender = Sender} bits) (append-nil (in_frames token fs))
        (in_frames-GoesOn bits token fs [] tt)

  Reports-GoesOn :
      (token : Token) (fs : List Frame) (xs : List (Transaction Sender)) (t : Worker channel)
      → xs ≡ in_frames token fs
      → Reported bits channel token (λ v. bits.contains v mantain_loop_exited ≡ false) xs t
      → GoesOn bits t.sends
  Reports-GoesOn token fs xs t e (v, sent, says) =
      subst (GoesOn bits)
        (sym (sent ∙ ap (λ (l : List (Transaction Sender)). l ++ (client_changed v token ∷ [])) e))
        (in_frames-GoesOn bits token fs _ (says, tt))

  Sends-GoesOn :
      (token : Token) (shutdown : tcp.Conn → Outcome IoError (Unit {0}))
      (r : List Frame × (End × tcp.Conn)) (s : Worker channel)
      (t : Outcome ⊥ (Unit {0}) × Worker channel)
      → s.sends ≡ []
      → Sends bits channel token (λ v. bits.contains v mantain_loop_exited ≡ false) shutdown r s t
      → GoesOn bits t.1.sends
  Sends-GoesOn token shutdown (fs, (broken, c)) s t e (inl (shut, done, h)) =
      Reports-GoesOn token fs _ t.1
        (ap (λ (l : List (Transaction Sender)). l ++ in_frames token fs) e) h
  Sends-GoesOn token shutdown (fs, (broken, c)) s t e (inr (bad, died, sent)) =
      rw (sent, e) (frames-GoesOn token fs)
  Sends-GoesOn token shutdown (fs, (panicked, c)) s t e (died, sent) =
      rw (sent, e) (frames-GoesOn token fs)
  Sends-GoesOn token shutdown (fs, (more, c)) s t e (died, sent) =
      rw (sent, e) (frames-GoesOn token fs)

  Written-GoesOn :
      (token : Token) (left : Outcome ⊥ Bool) (s : Worker channel)
      (t : Outcome ⊥ Bool × Worker channel)
      → s.sends ≡ []
      → Reports bits channel token (λ v. bits.contains v mantain_loop_exited ≡ false) left s.sends t
      → GoesOn bits t.1.sends
  Written-GoesOn token (ok true) s t e (done, h) = Reports-GoesOn token [] s.sends t.1 e h
  Written-GoesOn token (ok false) s t e (done, sent) = rw (sent, e) tt
  Written-GoesOn token (err x) s t e h = absurd x
  Written-GoesOn token panic s t e (done, sent) = rw (sent, e) tt

  Report-GoesOn :
      (s : Mantainer channel) (r : Outcome ⊥ Bool) (s' : Mantainer channel)
      → s.sends ≡ []
      → Report bits channel s r s'
      → GoesOn bits s'.sends
  Report-GoesOn s r s' e h =
      subst (GoesOn bits) (sym (h.sends ∙ ap (λ (l : List (Transaction Sender)). l ++ h.new) e))
        (Announces-GoesOn bits h.new h.announces)

  pub IsSent-ends : (tr : Transaction Sender) → IsSent tr → ends bits tr ≡ false
  IsSent-ends tr (by_mantain_loop attempts s leaves fresh e m) =
      GoesOn-Memᴰ bits _
        (Report-GoesOn s _ _ e (
          mantain_loop-Report bits buf tcp channel incoming_tx auto_reconnect attempts s leaves
            fresh))
        m
  IsSent-ends tr (by_read_task token others shutdown fuel c s keep connected e m) =
      GoesOn-Memᴰ bits _
        (Sends-GoesOn token shutdown _ s _ e (
          read_task-in_frames_client bits channel incoming_tx token others keep buf tcp shutdown
            fuel c s connected))
        m
  IsSent-ends tr (by_write_task token others received c s keep connected e m) =
      GoesOn-Memᴰ bits _
        (Written-GoesOn token _ s _ e (
          write_task-reported_client bits channel incoming_tx token others keep buf tcp received c s
            connected))
        m

  IsSent-GoesOn : (xs : List (Transaction Sender)) → All IsSent xs → GoesOn bits xs
  IsSent-GoesOn [] h = tt
  IsSent-GoesOn (tr ∷ rest) (h, hs) = (IsSent-ends tr h, IsSent-GoesOn rest hs)

  -- The mantain loop, the reading and the writing tasks of a client send to its forward loop, over any
  -- number of connections, where no task but the mantain loop at its end marks a loop as ended, a
  -- connection keeps its token while its tasks run, and no side is marked as closed before a connection
  -- opens. Whatever of this the loop receives, in any order and with whatever other tasks do in between:
  -- it never ends. It calls the closure for every transaction, in their order, and waits for more; or it
  -- panics at the report of a reader that ended, since the outgoing channel of the client did not take
  -- the notice for the write loop.
  pub forward_loop-transactions :
      (f : Transaction Sender → Shared bits channel → Shared bits channel)
      (received : List ((Shared bits channel → Shared bits channel) × Transaction Sender))
      (x : Client bits channel)
      → All IsSent (transactions received)
      → ((x' : Client bits channel) × (forward_loop bits channel f received x ≡ (ok false, x'))
          × (x'.calls ≡ x.calls ++ transactions received))
        ⊎ Panics bits channel f received x
  forward_loop-transactions f received x h =
      let goes = IsSent-GoesOn (transactions received) h in
      elim (forward_loop-forwarded bits channel f received x) [
        | inl (x', e, c) ↦ inl (
          x',
          e ∙ ap (λ b. (ok b, x')) (is_told-GoesOn bits received goes),
          c
              ∙ ap (λ (l : List (Transaction Sender)). x.calls ++ l)
                  (forwarded-transactions bits received goes),
        )
        | inr p ↦ inr p
      ]
