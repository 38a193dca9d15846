-- ===== src/Composition/Whole.antt =====
-- The whole life of one link, from the bytes of its client and its two tasks, through the server among
-- any number of other links, to what the application is told.
use h2l.Base.{ℕ, suc, ◌<◌, ◌≡◌, ap, sym, ◌∙◌, ◌⊎◌, true, List, [], ◌∷◌, ◌++◌, length, All}
use h2l.Base.Outcome.{panic}
use h2l.Consts.{http_2_0_preface, http_2_0_settings}
use h2l.Crates.Bitflags.{Bitflags}
use h2l.Crates.BytesMut.{BytesMut}
use h2l.Crates.Channel.{Channel}
use h2l.Crates.Httparse.{Httparse}
use h2l.Crates.TcpStream.{TcpStream}
use h2l.Frame.Any.{Frame, settings}
use h2l.Transaction.{Transaction, link_changed, transactions}
use h2l.Server.Forward.{Server, forward_loop}
use h2l.Server.Handled.{any_ends}
use h2l.Server.Isolation.{kept}
use h2l.Link.Reads.{stream_wire, all_received}
use h2l.Link.Receive.{IsReadable}
use h2l.Link.Receive
use h2l.Link.Task.{Reporter, read_task}
use h2l.Link.Tasks.{in_frames, Reports, write_task-reported, read_task-in_frames}
use h2l.Composition.Opening.{opening_settings, read_loop-opening}
use h2l.Base.{none, false}
use h2l.Server.Forward.{find_link}
use h2l.Server.Isolation.{concerns}
use h2l.Server.View.{Agrees}
use h2l.Transaction.{Link, new_link, token_of}
use h2l.Link.Race.{State, Reach, reported}
use h2l.Link.Reports.{NoOverlap}
use h2l.Link.Task.{write_task}
use h2l.Transaction.{Token}
use h2l.Base.{Bool, true, false}
use h2l.Base.Outcome.{Outcome, ok, err}
use h2l.Link.Write.{write_loop}
use h2l.Composition.Leaving.{ToldOf}
use h2l.Composition.Life.{forward_loop-ToldOf}
use h2l.Composition.Interleaving.{Interleaves, Interleaves-insert, reports, reports-in_frames}

module _ {Sender : Type 0} (channel : Channel Sender (Transaction Sender)) where
  Reports-written :
      (token : Token) (u : ℕ) (before : List (Transaction Sender)) (o : Outcome ⊥ Bool)
      (t : Outcome ⊥ Bool × Reporter channel)
      → before ≡ []
      → Reports channel token (λ v. Unit {0}) o before t
      → reports t.1.sends ≡ u ∷ []
      → t.1.sends ≡ link_changed u token ∷ []
  Reports-written token u before (ok true) t e (done, w, sent, _) says =
      let all : t.1.sends ≡ link_changed w token ∷ [] =
        sent ∙ ap (λ k. k ++ (link_changed w token ∷ [])) e in
      let heads : w ∷ [] ≡ u ∷ [] = sym (ap reports all) ∙ says in
      let same : w ≡ u = cc heads in all ∙ ap (λ n. link_changed n token ∷ []) same
  Reports-written token u before (ok false) t e (done, sent) says =
      let no_report : [] ≡ u ∷ [] = sym (ap reports (sent ∙ e)) ∙ says in cc no_report
  Reports-written token u before (err x) t e h says = absurd x
  Reports-written token u before panic t e (done, sent) says =
      let no_report : [] ≡ u ∷ [] = sym (ap reports (sent ∙ e)) ∙ says in cc no_report

module _ {Sender : Type 0} (bits : Bitflags) (channel : Channel Sender (Transaction Sender))
    (f : Transaction Sender → channel.World → channel.World) (buf : BytesMut) (http : Httparse)
    (tcp : TcpStream) (link : Link Sender) (incoming_tx : Sender) where
  open channel use {World}

  -- What the two tasks of the link send.
  abbrev reader_sends :
      (ℕ → Reporter channel → Reporter channel)
      → ℕ
      → tcp.Conn
      → Reporter channel
      → List (Transaction Sender)
  reader_sends others fuel c r =
      (read_task bits channel incoming_tx (token_of link) others buf http tcp (suc fuel) c
        r).1.sends

  abbrev writer_sends :
      (ℕ → Reporter channel → Reporter channel)
      → List ((tcp.Conn → tcp.Conn) × Transaction Sender)
      → tcp.Conn
      → Reporter channel
      → List (Transaction Sender)
  writer_sends others received d y =
      (write_task bits channel incoming_tx (token_of link) others buf tcp received d y).1.sends

  -- A client opens a connection, writes frames that a link reads, and at most eight bytes more, and is
  -- gone. Its link reads and writes in two tasks, with whatever other tasks do; the two tasks end in any order, and their calls of `add_flags` do not overlap. Of what a server
  -- receives, in any order and with whatever the other links, the accept loop and other tasks do in
  -- between, what concerns this link is its arrival and then what its two tasks sent, with one going
  -- into the other in any way; before, neither the table nor the application knew of the link. Then the
  -- forward loop panics; or the accept loop has ended; or the link is not in the table behind the loop,
  -- and of this link the application was told ATTACHED first, then exactly the DATA and the HEADERS of the
  -- client, in order and as the link receives them, and of ATTACHED and DETACHED last DETACHED.
  pub forward_loop-life :
      (others others' : ℕ → Reporter channel → Reporter channel) (fuel : ℕ) (fs : List Frame)
      (c d : tcp.Conn) (tail : List ℕ) (r y : Reporter channel)
      (received : List ((tcp.Conn → tcp.Conn) × Transaction Sender)) (v u : ℕ) (final : State)
      (run : Reach bits final) (l : List (Transaction Sender))
      (items : List ((World → World) × Transaction Sender)) (s : Server bits channel)
      → All IsReadable fs
      → tcp.incoming c ≡ http_2_0_preface ++ http_2_0_settings ++ stream_wire fs ++ tail
      → length tail < 9
      → length fs < fuel
      → r.sends ≡ []
      → y.sends ≡ []
      → NoOverlap bits final run
      → final.reader ≡ reported v
      → final.writer ≡ reported u
      → reports (reader_sends others fuel c r) ≡ v ∷ []
      → reports (writer_sends others' received d y) ≡ u ∷ []
      → Interleaves (reader_sends others fuel c r) (writer_sends others' received d y) l
      → kept (concerns (token_of link)) (transactions items) ≡ new_link link ∷ l
      → Agrees bits channel s
      → kept (concerns (token_of link)) s.calls ≡ []
      → ((forward_loop bits channel f items s).0 ≡ panic)
        ⊎ (any_ends (transactions items) ≡ true)
        ⊎ ((find_link bits channel (token_of link) (forward_loop bits channel f items s).1 ≡ none)
            × ToldOf
                (token_of link)
                false
                (all_received Receive.received fs)
                (kept (concerns (token_of link)) (forward_loop bits channel f items s).1.calls))
  forward_loop-life others others' fuel fs c d tail r y received v u final run l items s readable h
        ht hf rfresh wfresh apart reader writer says_v says_u mix order agrees fresh =
      let token = token_of link in
      let gs = settings opening_settings ∷ all_received Receive.received fs in
      let (c', e) = read_loop-opening bits buf http tcp fuel fs c tail readable h ht hf in
      let (done, (w, sent, closed)) =
        rw e at
          (read_task-in_frames bits channel incoming_tx token others buf http tcp (suc fuel) c r) in
      let read : reader_sends others fuel c r ≡ in_frames token gs ++ (link_changed w token ∷ []) =
        sent ∙ ap (λ k. k ++ in_frames token gs ++ (link_changed w token ∷ [])) rfresh in
      let wrote : writer_sends others' received d y ≡ link_changed u token ∷ [] =
        Reports-written channel token u y.sends (write_loop bits buf tcp received d).0 _ wfresh
          (write_task-reported channel bits incoming_tx token others' buf tcp received d y)
          says_u in
      let heads : w ∷ [] ≡ v ∷ [] =
        sym (reports-in_frames Sender token gs (link_changed w token ∷ []))
        ∙ sym (ap reports read)
        ∙ says_v in
      let same : w ≡ v = cc heads in
      let (before, behind, p, q) = Interleaves-insert (link_changed u token) mix wrote in
      forward_loop-ToldOf bits channel f link gs v u final run items s apart reader writer
        (
          before,
          behind,
          order ∙ ap (λ k. new_link link ∷ k) p,
          q ∙ read ∙ ap (λ n. in_frames token gs ++ (link_changed n token ∷ [])) same,
        )
        agrees fresh
