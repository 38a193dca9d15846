-- ===== src/Composition/Early.antt =====
-- A link starts its tasks before the accept loop sends it to the forward loop: what comes of a client
-- that is quicker.
use h2l.Base.{ℕ, suc, ◌<◌, ◌≡◌, refl, ap, ◌∙◌, none, some, List, [], ◌∷◌, ◌++◌, length, All}
use h2l.Base.Outcome.{panic}
use h2l.Consts.{http_2_0_preface, http_2_0_settings}
use h2l.Crates.Bitflags.{Bitflags}
use h2l.Crates.BytesMut.{BytesMut}
use h2l.Crates.Channel.{Channel}
use h2l.Crates.Httparse.{Httparse}
use h2l.Crates.TcpStream.{TcpStream}
use h2l.Frame.Any.{Frame, settings}
use h2l.Transaction.{Token, Transaction, frame, link_changed}
use h2l.Server.Forward.{Server, find_link, forward_loop}
use h2l.Server.Reply.{on_transaction-settings_missing}
use h2l.Link.Reads.{stream_wire, all_received}
use h2l.Link.Receive.{IsReadable, received}
use h2l.Link.Task.{Reporter, read_task}
use h2l.Link.Tasks.{in_frames, read_task-in_frames}
use h2l.Composition.Opening.{opening_settings, read_loop-opening}
use h2l.Composition.Greeting.{not_ack}

module _ {Sender : Type 0} (bits : Bitflags) (channel : Channel Sender (Transaction Sender))
    (f : Transaction Sender → channel.World → channel.World) where
  open channel use {World}

  forward_loop-missing :
      (token : Token) (before : World → World) (later : List ((World → World) × Transaction Sender))
      (s : Server bits channel)
      → find_link bits channel token s ≡ none
      → forward_loop bits channel f
          ((before, frame (settings opening_settings) (some token)) ∷ later)
          s
        ≡ (panic, record s { world = before s.world })
  unfolding forward_loop find_link
  forward_loop-missing token before later s h =
      let s1 : Server bits channel = record s { world = before s.world } in
      rw (on_transaction-settings_missing bits channel f opening_settings token s1 (not_ack bits) h)
        refl

  -- A client opens a connection, and writes frames that a link reads. Its link is not yet in the
  -- table. The first transaction that the reading task sends are the settings of the client; and where
  -- the server receives this one before the new link, whatever it was to receive after it, the forward
  -- loop panics, with no call of the closure.
  pub forward_loop-panic :
      (buf : BytesMut) (http : Httparse) (tcp : TcpStream) (token : Token) (incoming_tx : Sender)
      (others : ℕ → Reporter channel → Reporter channel) (fuel : ℕ) (fs : List Frame) (c : tcp.Conn)
      (tail : List ℕ) (r : Reporter channel) (before : World → World)
      (later : List ((World → World) × Transaction Sender)) (s : Server bits channel)
      → All IsReadable fs
      → tcp.incoming c ≡ http_2_0_preface ++ http_2_0_settings ++ stream_wire fs ++ tail
      → length tail < 9
      → length fs < fuel
      → r.sends ≡ []
      → find_link bits channel token s ≡ none
      → (tr : Transaction Sender) × (more : List (Transaction Sender)) × ((read_task bits channel
            incoming_tx token others buf http tcp
            (suc fuel)
            c
            r).1.sends
          ≡ tr ∷ more)
        × (forward_loop bits channel f ((before, tr) ∷ later) s
            ≡ (panic, record s { world = before s.world }))
  forward_loop-panic buf http tcp token incoming_tx others fuel fs c tail r before later s v h ht hf
        start missing =
      let (c', e) = read_loop-opening bits buf http tcp fuel fs c tail v h ht hf in
      let (done, (w, sent, closed)) =
        rw e at
          (read_task-in_frames bits channel incoming_tx token others buf http tcp (suc fuel) c r) in
      (
        frame (settings opening_settings) (some token),
        in_frames token (all_received received fs) ++ (link_changed w token ∷ []),
        sent
            ∙ ap
                (λ (l : List (Transaction Sender)).
                  l
                  ++ in_frames token (settings opening_settings ∷ all_received received fs)
                  ++ (link_changed w token ∷ []))
                start,
        forward_loop-missing token before later s missing,
      )
