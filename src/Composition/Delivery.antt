-- ===== src/Composition/Delivery.antt =====
-- From the bytes that a link writes to what the application of the client is told.
use h2l.Base.{
  ℕ, ◌<◌, ◌≡◌, refl, ap, sym, ◌∙◌, ◌⊎◌, inl, inr, List, [], ◌∷◌, ◌++◌, append-nil, append_assoc,
  length, All, false,
}
use h2l.Base.Outcome.{Outcome, ok, panic}
use h2l.Crates.Bitflags.{Bitflags}
use h2l.Crates.BytesMut.{BytesMut}
use h2l.Crates.Channel.{Channel}
use h2l.Crates.TcpStream.{TcpStream}
use h2l.Frame.Error.{IoError}
use h2l.Frame.Any.{Frame}
use h2l.Transaction.{transactions, Token, Transaction, client_changed}
use h2l.Link.Reads.{stream_wire, all_received}
use h2l.Link.Tasks.{in_frames}
use h2l.Client.Receive
use h2l.Link.Written.{is_told}
use h2l.Client.Receive.{IsReadable, read_frames-all_received}
use h2l.Client.Forward.{read_closed, Shared, Client, forward_loop}
use h2l.Client.Forwarded.{ends, forwarded, Panics, forward_loop-forwarded}
use h2l.Client.Task.{Worker, read_task}
use h2l.Client.Sides.{SaysClosed}
use h2l.Client.Tasks.{IsConnected, Holds, read_task-Sends_client}

module _ {Sender : Type 0} (bits : Bitflags) where
  -- None of these ends the forward loop of a client.
  abbrev pub GoesOn : List (Transaction Sender) → Type 0
  GoesOn = All (λ tr. ends bits tr ≡ false)

  pub is_told-GoesOn :
      {A : Type 0} (received : List (A × Transaction Sender))
      → GoesOn (transactions received)
      → is_told (ends bits) received ≡ false
  is_told-GoesOn [] h = refl
  is_told-GoesOn ((others, tr) ∷ rest) (h, hs) = rw h (is_told-GoesOn rest hs)

  pub in_frames-GoesOn :
      (token : Token) (fs : List Frame) (last : List (Transaction Sender))
      → GoesOn last
      → GoesOn (in_frames token fs ++ last)
  in_frames-GoesOn token [] last h = h
  in_frames-GoesOn token (f ∷ rest) last h = (refl, in_frames-GoesOn token rest last h)

  pub forwarded-transactions {ℓ} :
      {A : Type ℓ} (received : List (A × Transaction Sender))
      → GoesOn (transactions received)
      → forwarded bits received ≡ transactions received
  forwarded-transactions [] h = refl
  forwarded-transactions ((others, tr) ∷ rest) (h, hs) =
      rw h (ap (λ (l : List (Transaction Sender)). tr ∷ l) (forwarded-transactions rest hs))

module _ {Sender : Type 0} (bits : Bitflags) (channel : Channel Sender (Transaction Sender))
    (f : Transaction Sender → Shared bits channel → Shared bits channel) where
  -- The forward loop of a client waits for more, and told the application exactly these frames, in order, and
  -- then what its reading task said last: that the reader was closed; or nothing, where that
  -- panicked. Or the loop panics at the report, since the outgoing channel of the client did not
  -- take the notice for the write loop.
  abbrev pub Delivers :
      Token
      → List Frame
      → Outcome ⊥ (Unit {0})
      → List ((Shared bits channel → Shared bits channel) × Transaction Sender)
      → Client bits channel
      → Type 0
  Delivers token fs task received x =
      ((x' : Client bits channel) × (last : List (Transaction Sender)) × (forward_loop bits channel
            f received x
          ≡ (ok false, x'))
        × (x'.calls ≡ x.calls ++ in_frames token fs ++ last)
        × (((v : ℕ) × (last ≡ client_changed v token ∷ []) × SaysClosed bits read_closed v)
            ⊎ ((last ≡ []) × (task ≡ panic))))
      ⊎ Panics bits channel f received x

  told :
      (token : Token) (fs : List Frame) (last : List (Transaction Sender))
      (received : List ((Shared bits channel → Shared bits channel) × Transaction Sender))
      (x : Client bits channel)
      → transactions received ≡ in_frames token fs ++ last
      → GoesOn bits last
      → ((x' : Client bits channel) × (forward_loop bits channel f received x ≡ (ok false, x'))
          × (x'.calls ≡ x.calls ++ in_frames token fs ++ last))
        ⊎ Panics bits channel f received x
  told token fs last received x h quiet =
      let goes : GoesOn bits (transactions received) =
        rw h (in_frames-GoesOn bits token fs last quiet) in
      elim (forward_loop-forwarded bits channel f received x) [
        | inl (x', e, c) ↦ inl (
          x',
          e ∙ ap (λ b. (ok b, x')) (is_told-GoesOn bits received goes),
          c
              ∙ ap (λ (l : List (Transaction Sender)). x.calls ++ l)
                  (forwarded-transactions bits received goes ∙ h)
              ∙ sym (append_assoc x.calls (in_frames token fs) last),
        )
        | inr p ↦ inr p
      ]

  -- A link writes frames that a client reads, and at most eight bytes more, and is gone. While the
  -- reading task of the client runs, no loop is marked as ended, the token stays, and no other task takes
  -- the mark of the reader away once it is there, as an `add_flags` does that overlaps. When the forward
  -- loop has received all that this task sent, in order and with whatever other tasks do in between,
  -- the application was told exactly the frames of the link, in order and as the client receives
  -- them, and at the end that the reader was closed; but nothing at the end where the stream could not
  -- be shut down, which panics the reading task; or the loop panics at the report, since the outgoing
  -- channel of the client did not take the notice for the write loop.
  pub forward_loop-Delivers :
      (buf : BytesMut) (tcp : TcpStream) (shutdown : tcp.Conn → Outcome IoError (Unit {0}))
      (incoming_tx : Sender) (token : Token) (others : ℕ → Worker channel → Worker channel)
      (fuel : ℕ) (fs : List Frame) (c : tcp.Conn) (tail : List ℕ) (r : Worker channel)
      (received : List ((Shared bits channel → Shared bits channel) × Transaction Sender))
      (x : Client bits channel)
      → All IsReadable fs
      → tcp.incoming c ≡ stream_wire fs ++ tail
      → length tail < 9
      → length fs < fuel
      → ((n : ℕ) (s : Worker channel)
          → IsConnected channel token s
          → IsConnected channel token (others n s))
      → Holds bits channel read_closed others
      → IsConnected channel token r
      → r.sends ≡ []
      → transactions received
        ≡ (read_task bits channel incoming_tx others buf tcp shutdown fuel c r).1.sends
      → Delivers token
          (all_received Receive.received fs)
          (read_task bits channel incoming_tx others buf tcp shutdown fuel c r).0
          received
          x
  forward_loop-Delivers buf tcp shutdown incoming_tx token others fuel fs c tail r received x v h ht
        hf keep hold connected start order =
      let gs = all_received Receive.received fs in
      let (c', e) = read_frames-all_received bits buf tcp fuel fs c tail v h ht hf in
      elim (rw e at (
        read_task-Sends_client bits channel incoming_tx token others keep buf tcp shutdown fuel c r
          hold connected)) [
            | inl (shut, done, (w, sent, says)) ↦
                elim (told token gs (client_changed w token ∷ []) received x
                  (order ∙ sent ∙ simp (start, append_assoc)) (says.1, tt)) [
                    | inl (x', q, d) ↦
                        inl (x', client_changed w token ∷ [], q, d, inl (w, refl, says))
                    | inr p ↦ inr p
                  ]
            | inr (bad, died, sent) ↦
                elim (told token gs [] received x (order ∙ sent ∙ simp (start, append-nil)) tt) [
                  | inl (x', q, d) ↦ inl (x', [], q, d, inr (refl, died))
                  | inr p ↦ inr p
                ]
          ]
