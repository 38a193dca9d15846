-- ===== src/Composition/Many.antt =====
-- What the application of a server is told of the frames of one client, among any number of others.
use h2l.Base.{
  ℕ, suc, ◌<◌, eq→==, ◌≡◌, refl, ap, sym, ◌∙◌, some, ◌⊎◌, inl, inr, true, List, [], ◌∷◌, ◌++◌,
  append-nil, append_assoc, length, All,
}
use h2l.Base.Outcome.{panic}
use h2l.Consts.{http_2_0_preface, http_2_0_settings}
use h2l.Crates.Bitflags.{Bitflags}
use h2l.Crates.BytesMut.{BytesMut}
use h2l.Crates.Channel.{Channel}
use h2l.Crates.Httparse.{Httparse}
use h2l.Crates.TcpStream.{TcpStream}
use h2l.Frame.Any.{Frame, settings}
use h2l.Transaction.{Token, Transaction, frame, link_changed, transactions}
use h2l.Server.Forward.{Server, forward_loop}
use h2l.Server.Calls.{visible}
use h2l.Server.Handled.{visible_each, visible_each-append, any_ends}
use h2l.Server.Isolation.{kept, carries, kept-carries, IsPrefix, kept-Isolates}
use h2l.Link.Reads.{stream_wire, all_received}
use h2l.Link.Receive.{IsReadable, received}
use h2l.Link.Task.{Reporter, read_task}
use h2l.Link.Tasks.{in_frames, read_task-in_frames}
use h2l.Composition.Opening.{opening_settings, read_loop-opening}
use h2l.Composition.Application.{shown, visible-shown}

module _ {Sender : Type 0} (token : Token) where
  pub kept-in_frames :
      (fs : List Frame) (last : List (Transaction Sender))
      → kept (carries token) (in_frames token fs ++ last)
        ≡ in_frames token fs ++ kept (carries token) last
  kept-in_frames [] last = refl
  kept-in_frames (f ∷ rest) last =
      rw (eq→== token token refl) (
        ap (λ (l : List (Transaction Sender)). frame f (some token) ∷ l) (kept-in_frames rest last))

  pub visible_each-in_frames :
      (fs : List Frame) → visible_each {Sender = Sender} (in_frames token fs) ≡ shown token fs
  visible_each-in_frames [] = refl
  visible_each-in_frames (f ∷ rest) =
      ap (λ l. visible (frame f (some token)) ++ l) (visible_each-in_frames rest)
      ∙ visible-shown token f rest

module _ {Sender : Type 0} (bits : Bitflags) (channel : Channel Sender (Transaction Sender))
    (f : Transaction Sender → channel.World → channel.World) where
  open channel use {World}

  -- The frames that a client writes, among those of any number of others: a client opens a connection,
  -- writes frames that a link reads, and at most eight bytes more, and is gone, and no other task marks
  -- the reader of its link as closed. The server receives some transactions, with what the accept loop
  -- and the other links send in between, of which those that carry a frame of this link are a first part
  -- of what its reading task sent. Then the frames of this link that the application was told of are a
  -- first part of the DATA and the HEADERS of the client, in order and as the link receives them. And the
  -- forward loop panics, or the accept loop has ended, or those that the application was not told of are
  -- those that the server did not receive.
  pub forward_loop-shown :
      (buf : BytesMut) (http : Httparse) (tcp : TcpStream) (token : Token) (incoming_tx : Sender)
      (others : ℕ → Reporter channel → Reporter channel) (fuel : ℕ) (fs : List Frame) (c : tcp.Conn)
      (tail : List ℕ) (r : Reporter channel) (items : List ((World → World) × Transaction Sender))
      (s : Server bits channel) (later : List (Transaction Sender))
      → All IsReadable fs
      → tcp.incoming c ≡ http_2_0_preface ++ http_2_0_settings ++ stream_wire fs ++ tail
      → length tail < 9
      → length fs < fuel
      → r.sends ≡ []
      → kept (carries token) s.calls ≡ []
      → kept
          (carries token)
          (read_task bits channel incoming_tx token others buf http tcp (suc fuel) c r).1.sends
        ≡ kept (carries token) (transactions items) ++ later
      → IsPrefix
          (kept (carries token) (forward_loop bits channel f items s).1.calls)
          (shown token (all_received received fs))
        × (((forward_loop bits channel f items s).0 ≡ panic)
            ⊎ (any_ends (transactions items) ≡ true)
            ⊎ (shown token (all_received received fs)
                ≡ kept (carries token) (forward_loop bits channel f items s).1.calls
                  ++ visible_each later))
  forward_loop-shown buf http tcp token incoming_tx others fuel fs c tail r items s later v h ht hf
        start fresh order =
      let gs = all_received received fs in
      let (c', e) = read_loop-opening bits buf http tcp fuel fs c tail v h ht hf in
      let (done, (w, sent, closed)) =
        rw e at
          (read_task-in_frames bits channel incoming_tx token others buf http tcp (suc fuel) c r) in
      let all_sent : kept (carries token)
            (read_task bits channel incoming_tx token others buf http tcp (suc fuel) c r).1.sends
          ≡ in_frames token (settings opening_settings ∷ gs) =
        ap (kept (carries token)) (
          sent
          ∙ ap
              (λ l.
                l
                ++ in_frames token (settings opening_settings ∷ gs)
                ++ (link_changed w token ∷ []))
              start)
        ∙ kept-in_frames token (settings opening_settings ∷ gs) (link_changed w token ∷ [])
        ∙ append-nil (in_frames token (settings opening_settings ∷ gs)) in
      let seen : visible_each (in_frames token (settings opening_settings ∷ gs)) ≡ shown token gs =
        visible_each-in_frames token (settings opening_settings ∷ gs) in
      let (first, (rest, split), calls, whole) =
        kept-Isolates bits channel f (carries token) items s (kept-carries token) in
      let told : kept (carries token) (forward_loop bits channel f items s).1.calls
          ≡ visible_each first =
        calls ∙ ap (λ l. l ++ visible_each first) fresh in
      (
        (
          visible_each (rest ++ later),
          sym seen
              ∙ ap visible_each (
                  sym all_sent ∙ order ∙ ap (λ l. l ++ later) split ∙ append_assoc first rest later)
              ∙ visible_each-append first (rest ++ later)
              ∙ ap (λ l. l ++ visible_each (rest ++ later)) (sym told),
        ),
        elim whole [
          | inl stuck ↦ inl stuck
          | inr (inl end) ↦ inr (inl end)
          | inr (inr (good, all)) ↦ inr (
              inr (
                sym seen
                ∙ ap visible_each (sym all_sent ∙ order ∙ ap (λ l. l ++ later) (sym all))
                ∙ visible_each-append first later
                ∙ ap (λ l. l ++ visible_each later) (sym told)))
        ],
      )
