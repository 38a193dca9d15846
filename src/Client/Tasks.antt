-- ===== src/Client/Tasks.antt =====
-- What the two tasks of a connection of a client send to its forward loop.
use h2l.Base.{
  ℕ, ◌%◌, ◌≡◌, refl, sym, ap, ◌∙◌, ◌⊎◌, inl, inr, List, [], ◌∷◌, ◌++◌, append-nil, append_assoc,
  some, length, All, Bool, true, false, arith,
}
use h2l.Base.Outcome.{Outcome, ok, err, panic}
use h2l.Base.Exec.{lift, ◌>>◌, ◌>>=◌}
use h2l.Client.Marks.{add_flags-read_closed, add_flags-write_closed}
use h2l.Client.Announced.{unmarked}
use h2l.Crates.Bitflags.{Bitflags}
use h2l.Crates.BytesMut.{BytesMut}
use h2l.Crates.Channel.{Channel}
use h2l.Crates.TcpStream.{TcpStream}
use h2l.Frame.Error.{IoError}
use h2l.Frame.Any.{Frame}
use h2l.Transaction.{Token, Transaction, frame, client_changed}
use h2l.Link.Read.{End, broken, panicked, more}
use h2l.Link.Tasks.{in_frames}
use h2l.Client.Read.{read_frames}
use h2l.Link.Written.{IsWritable, KeepsWritten, WritesAll}
use h2l.Client.Write.{write_one, write_loop}
use h2l.Client.Written.{client_ends, write_loop-outgoing_wire}
use h2l.Client.Forward.{read_closed, write_closed, mantain_loop_exited}
use h2l.Client.Flags.{loaded_flags, add_flags}
use h2l.Client.Sides.{SaysClosed, reader-SaysClosed, writer-SaysClosed}
use h2l.Client.Task.{
  Worker, send_incoming, send_frames, report, at_end, read_task, flush_outgoing, write_task, shut,
  leave, others_after,
}

module _ {Sender : Type 0} (channel : Channel Sender (Transaction Sender)) (token : Token) where
  -- No loop of the client is marked as ended, and the connection has this token.
  abbrev pub IsConnected : Worker channel → Type 0
  IsConnected s = (s.raw_flags % 4 ≡ 0) × (s.raw_token ≡ token)

module _ {Sender : Type 0} (bits : Bitflags) (channel : Channel Sender (Transaction Sender)) where
  -- Other tasks leave the mark of a side where it is.
  abbrev pub Holds : ℕ → (ℕ → Worker channel → Worker channel) → Type 0
  Holds side others =
      (n : ℕ) (x : Worker channel)
      → bits.contains (loaded_flags bits x.raw_flags) side ≡ true
      → bits.contains (loaded_flags bits (others n x).raw_flags) side ≡ true

module _ (bits : Bitflags) where
  spares-read_closed : (raw : ℕ) → raw % 4 ≡ 0 → add_flags bits read_closed raw % 4 ≡ 0
  spares-read_closed raw h = rw (add_flags-read_closed bits raw) (omega arith)

  spares-write_closed : (raw : ℕ) → raw % 4 ≡ 0 → add_flags bits write_closed raw % 4 ≡ 0
  spares-write_closed raw h = rw (add_flags-write_closed bits raw) (omega arith)

module _ {Sender : Type 0} (bits : Bitflags) (channel : Channel Sender (Transaction Sender))
    (token : Token) where
  -- One report, at the end of these sends, with flags of some kind.
  abbrev pub Reported : (ℕ → Type 0) → List (Transaction Sender) → Worker channel → Type 0
  Reported P sends s = (v : ℕ) × (s.sends ≡ sends ++ (client_changed v token ∷ [])) × P v

  -- What the writing task has sent, by how its loop went: one report at the end, where the loop has
  -- ended; nothing, where it waits for more or panicked.
  abbrev pub Reports :
      (ℕ → Type 0)
      → Outcome ⊥ Bool
      → List (Transaction Sender)
      → Outcome ⊥ Bool × Worker channel
      → Type 0
  Reports P (ok true) sends r = (r.0 ≡ ok true) × Reported P sends r.1
  Reports P (ok false) sends r = (r.0 ≡ ok false) × (r.1.sends ≡ sends)
  Reports P _ sends r = (r.0 ≡ panic) × (r.1.sends ≡ sends)

  -- What the reading task has sent when it ends, by what the loop read and how that ended, and by how
  -- the stream was shut down.
  abbrev pub Sends :
      {C : Type 0}
      → (ℕ → Type 0)
      → (C → Outcome IoError (Unit {0}))
      → List Frame × (End × C)
      → Worker channel
      → Outcome ⊥ (Unit {0}) × Worker channel
      → Type 0
  Sends P shutdown (fs, (broken, c)) s r =
      ((shutdown c ≡ ok tt) × (r.0 ≡ ok tt) × Reported P (s.sends ++ in_frames token fs) r.1)
      ⊎ ((shut (shutdown c) ≡ panic) × (r.0 ≡ panic) × (r.1.sends ≡ s.sends ++ in_frames token fs))
  Sends P shutdown (fs, (panicked, c)) s r =
      (r.0 ≡ panic) × (r.1.sends ≡ s.sends ++ in_frames token fs)
  Sends P shutdown (fs, (more, c)) s r = (r.0 ≡ ok tt) × (r.1.sends ≡ s.sends ++ in_frames token fs)

module _ {Sender : Type 0} (bits : Bitflags) (channel : Channel Sender (Transaction Sender))
    (incoming_tx : Sender) (token : Token) (others : ℕ → Worker channel → Worker channel)
    (keep : (n : ℕ) (s : Worker channel)
      → IsConnected channel token s
      → IsConnected channel token (others n s)) where
  send_frames-in_frames :
      (fs : List Frame) (s : Worker channel)
      → IsConnected channel token s
      → (s' : Worker channel) × (send_frames bits channel incoming_tx others fs s ≡ (ok tt, s'))
        × (s'.sends ≡ s.sends ++ in_frames token fs)
        × IsConnected channel token s'
  unfolding send_frames send_incoming
  send_frames-in_frames [] s h = (s, refl, sym (append-nil s.sends), h)
  send_frames-in_frames (f ∷ rest) s h =
      let (s', e, q, h') = send_frames-in_frames rest _ (keep (length s.sends) s h) in
      let own : (others (length s.sends) s).raw_token ≡ token = (keep (length s.sends) s h).1 in
      (
        s',
        e,
        q
            ∙ ap (λ (t : Token). (s.sends ++ (frame f (some t) ∷ [])) ++ in_frames token rest) own
            ∙ append_assoc s.sends (frame f (some token) ∷ []) (in_frames token rest),
        h',
      )

  -- The client when `flags` is loaded for the report.
  abbrev reported : ℕ → Worker channel → Worker channel
  reported side s =
      let s1 : Worker channel = others_after bits channel incoming_tx others 1 s in
      let s2 : Worker channel = others_after bits channel incoming_tx others 2 s1 in
      others_after bits channel incoming_tx others 3
        (record s2 { raw_flags = add_flags bits side s1.raw_flags })

  -- A flag of a side does not mark a loop as ended.
  abbrev Spares : ℕ → Type 0
  Spares side = (raw : ℕ) → raw % 4 ≡ 0 → add_flags bits side raw % 4 ≡ 0

  reported-IsConnected :
      (side : ℕ) (s : Worker channel)
      → Spares side
      → IsConnected channel token s
      → IsConnected channel token (reported side s)
  reported-IsConnected side s spares h =
      let h1 = keep _ _ h in let h2 = keep _ _ h1 in keep _ _ (spares _ h1.0, h2.1)

  report-Reported :
      (P : ℕ → Type 0) (side : ℕ) (s : Worker channel)
      → Spares side
      → IsConnected channel token s
      → P (loaded_flags bits (reported side s).raw_flags)
      → ((report bits channel incoming_tx others side s).0 ≡ ok tt)
        × Reported bits channel token P s.sends (report bits channel incoming_tx others side s).1
  unfolding report send_incoming
  report-Reported P side s spares h says = (
    refl,
    (
      loaded_flags bits (reported side s).raw_flags,
      ap
          (λ (t : Token).
            s.sends ++ (client_changed (loaded_flags bits (reported side s).raw_flags) t ∷ []))
          (reported-IsConnected side s spares h).1,
      says,
    ),
  )

  ending-Sends :
      {C : Type 0} (P : ℕ → Type 0)
      (says : (x : Worker channel)
        → IsConnected channel token x
        → P (loaded_flags bits (reported read_closed x).raw_flags))
      (shutdown : C → Outcome IoError (Unit {0})) (fs : List Frame) (end : End) (c : C)
      (s : Worker channel)
      → IsConnected channel token s
      → Sends bits channel token P shutdown
          (fs, (end, c))
          s
          ((send_frames bits channel incoming_tx others fs
              >> at_end bits channel incoming_tx others (shutdown c) end)
            s)
  unfolding at_end
  ending-Sends P says shutdown fs end c s h =
      let (s', e, q, h') = send_frames-in_frames fs s h in rw e (ended end s' q h')
    where
      ended :
          (end : End) (s' : Worker channel)
          → s'.sends ≡ s.sends ++ in_frames token fs
          → IsConnected channel token s'
          → Sends bits channel token P shutdown
              (fs, (end, c))
              s
              (at_end bits channel incoming_tx others (shutdown c) end s')
      ended broken s' q h' = shutting (shutdown c) refl
        where
          shutting :
              (o : Outcome IoError (Unit {0}))
              → shutdown c ≡ o
              → Sends bits channel token P shutdown
                  (fs, (broken, c))
                  s
                  (at_end bits channel incoming_tx others o broken s')
          shutting (ok a) e =
              let (done, sent) =
                report-Reported P read_closed s' (spares-read_closed bits) h' (says s' h') in
              inl (e, done, rw (← q) sent)
          shutting (err x) e = inr (ap shut e, refl, q)
          shutting panic e = inr (ap shut e, refl, q)
      ended panicked s' q h' = (refl, q)
      ended more s' q h' = (refl, q)

  task-Sends :
      (P : ℕ → Type 0)
      (says : (x : Worker channel)
        → IsConnected channel token x
        → P (loaded_flags bits (reported read_closed x).raw_flags))
      (buf : BytesMut) (tcp : TcpStream) (shutdown : tcp.Conn → Outcome IoError (Unit {0}))
      (fuel : ℕ) (c : tcp.Conn) (s : Worker channel)
      → IsConnected channel token s
      → Sends bits channel token P shutdown
          (read_frames bits buf tcp fuel c)
          s
          (read_task bits channel incoming_tx others buf tcp shutdown fuel c s)
  unfolding read_task
  task-Sends P says buf tcp shutdown fuel c s h =
      let r = read_frames bits buf tcp fuel c in ending-Sends P says shutdown r.0 r.1.0 r.1.1 s h

  task-Reports :
      (P : ℕ → Type 0)
      (says : (x : Worker channel)
        → IsConnected channel token x
        → P (loaded_flags bits (reported write_closed x).raw_flags))
      (buf : BytesMut) (tcp : TcpStream)
      (received : List ((tcp.Conn → tcp.Conn) × Transaction Sender)) (c : tcp.Conn)
      (s : Worker channel)
      → IsConnected channel token s
      → Reports bits channel token P
          (write_loop bits buf tcp received c).0
          s.sends
          (write_task bits channel incoming_tx others buf tcp received c s)
  unfolding write_task leave flush_outgoing report send_incoming
  task-Reports P says buf tcp received c s h = after (write_loop bits buf tcp received c).0
    where
      after :
          (r : Outcome ⊥ Bool)
          → Reports bits channel token P r s.sends
              ((lift r >>= leave bits channel incoming_tx others) s)
      after (ok true) =
          let h' = keep (length s.sends) s h in
          let flushed : Worker channel = (flush_outgoing bits channel incoming_tx others s).1 in
          let (e, sent) =
            report-Reported P write_closed flushed (spares-write_closed bits) h'
              (says flushed h') in
          (refl, sent)
      after (ok false) = (refl, refl)
      after (err e) = absurd e
      after panic = (refl, refl)

  -- The report does not say that the mantain loop has ended.
  spared :
      (side : ℕ) (x : Worker channel)
      → Spares side
      → IsConnected channel token x
      → bits.contains (loaded_flags bits (reported side x).raw_flags) mantain_loop_exited ≡ false
  spared side x spares h = unmarked bits _ (reported-IsConnected side x spares h).0

  -- Whatever other tasks do to the flags of the two sides: the frames that the loop read, and a report
  -- that does not say that the mantain loop has ended.
  pub read_task-in_frames_client :
      (buf : BytesMut) (tcp : TcpStream) (shutdown : tcp.Conn → Outcome IoError (Unit {0}))
      (fuel : ℕ) (c : tcp.Conn) (s : Worker channel)
      → IsConnected channel token s
      → Sends bits channel token
          (λ v. bits.contains v mantain_loop_exited ≡ false)
          shutdown
          (read_frames bits buf tcp fuel c)
          s
          (read_task bits channel incoming_tx others buf tcp shutdown fuel c s)
  read_task-in_frames_client =
      task-Sends (λ v. bits.contains v mantain_loop_exited ≡ false)
        (λ x h. spared read_closed x (spares-read_closed bits) h)

  pub write_task-reported_client :
      (buf : BytesMut) (tcp : TcpStream)
      (received : List ((tcp.Conn → tcp.Conn) × Transaction Sender)) (c : tcp.Conn)
      (s : Worker channel)
      → IsConnected channel token s
      → Reports bits channel token
          (λ v. bits.contains v mantain_loop_exited ≡ false)
          (write_loop bits buf tcp received c).0
          s.sends
          (write_task bits channel incoming_tx others buf tcp received c s)
  write_task-reported_client =
      task-Reports (λ v. bits.contains v mantain_loop_exited ≡ false)
        (λ x h. spared write_closed x (spares-write_closed bits) h)

  -- If no loop of the client is marked as ended, and other tasks keep that and the token; and if they do
  -- not take the mark of the reader away once it is there, as an `add_flags` does that overlaps: whatever
  -- the stream delivers and whatever they do else, the reading task sends on each frame that the loop
  -- read, in order and under the token; and then, exactly where the loop was broken and the stream is
  -- shut down, one report, which says READ_CLOSED and not MANTAIN_LOOP_EXITED. Where the loop panics or
  -- the stream cannot be shut down, the task panics with no report.
  pub read_task-Sends_client :
      (buf : BytesMut) (tcp : TcpStream) (shutdown : tcp.Conn → Outcome IoError (Unit {0}))
      (fuel : ℕ) (c : tcp.Conn) (s : Worker channel)
      → Holds bits channel read_closed others
      → IsConnected channel token s
      → Sends bits channel token
          (SaysClosed bits read_closed)
          shutdown
          (read_frames bits buf tcp fuel c)
          s
          (read_task bits channel incoming_tx others buf tcp shutdown fuel c s)
  read_task-Sends_client buf tcp shutdown fuel c s hold =
      task-Sends (SaysClosed bits read_closed)
        (λ x h. (
          hold _ _ (reader-SaysClosed bits _ (keep _ _ h).0).0,
          spared read_closed x (spares-read_closed bits) h,
        ))
        buf tcp shutdown fuel c s

  -- If no loop of the client is marked as ended, and other tasks keep that and the token, and do not
  -- write; if they do not take the mark of the writer away once it is there, as an `add_flags` does that
  -- overlaps; and the frames received have numbers that fit: the writing task wrote exactly the bytes and
  -- the layouts of the frames received up to the first ClientChanged that contains READ_CLOSED, at which
  -- its loop ends, and waits for more where there is none; or the connection failed, which ends the loop.
  -- Exactly where the loop has ended the task has sent one report, which says WRITE_CLOSED and not
  -- MANTAIN_LOOP_EXITED.
  pub write_task-Reports_client :
      (buf : BytesMut) (tcp : TcpStream)
      (received : List ((tcp.Conn → tcp.Conn) × Transaction Sender)) (c : tcp.Conn)
      (s : Worker channel)
      → Holds bits channel write_closed others
      → All (λ r. KeepsWritten tcp r.0 × IsWritable r.1) received
      → IsConnected channel token s
      → WritesAll tcp
          (write_loop bits buf tcp)
          (write_one bits buf tcp)
          (client_ends bits buf tcp)
          received
          c
        × Reports bits channel token
            (SaysClosed bits write_closed)
            (write_loop bits buf tcp received c).0
            s.sends
            (write_task bits channel incoming_tx others buf tcp received c s)
  write_task-Reports_client buf tcp received c s hold v h = (
    write_loop-outgoing_wire bits buf tcp received c v,
    task-Reports (SaysClosed bits write_closed)
        (λ x k. (
          hold _ _ (writer-SaysClosed bits _ (keep _ _ k).0).0,
          spared write_closed x (spares-write_closed bits) k,
        ))
        buf tcp received c s h,
  )
