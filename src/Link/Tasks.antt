-- ===== src/Link/Tasks.antt =====
-- What the two tasks of a link send to the forward loop of its server.
use h2l.Base.{
  All, ap, Bool, true, false, ℕ, ◌≡◌, refl, sym, ◌⊎◌, inl, inr, List, [], ◌∷◌, ◌++◌, append-nil,
  append_assoc, some, length,
}
use h2l.Base.Outcome.{Outcome, ok, err, panic}
use h2l.Base.Exec.{lift, ◌>>◌, ◌>>=◌}
use h2l.Crates.Bitflags.{Bitflags}
use h2l.Crates.BytesMut.{BytesMut}
use h2l.Crates.Channel.{Channel}
use h2l.Crates.Httparse.{Httparse}
use h2l.Crates.TcpStream.{TcpStream}
use h2l.Frame.Any.{Frame}
use h2l.Transaction.{Token, Transaction, frame, link_changed}
use h2l.Server.Forward.{read_closed, write_closed, read_write_closed}
use h2l.Link.Read.{End, broken, panicked, more}
use h2l.Link.Handshake.{read_loop}
use h2l.Link.Write.{write_one, write_loop}
use h2l.Link.Written.{IsWritable, KeepsWritten, WritesAll, link_ends, write_loop-WritesAll}
use h2l.Link.Flags.{flags, add_flags}
use h2l.Link.Task.{
  write_task, leave, others_after, Reporter, send_incoming, send_frames, report, at_end, read_task,
}

module _ {Sender : Type 0} (token : Token) where
  -- The frames of a link, as its server receives them.
  abbrev pub in_frames : List Frame → List (Transaction Sender)
  in_frames [] = []
  in_frames (f ∷ rest) = frame f (some token) ∷ in_frames rest

module _ {Sender : Type 0} (channel : Channel Sender (Transaction Sender)) where
  -- The reader is not marked as closed.
  abbrev pub Reading : Reporter channel → Type 0
  Reading s = (s.raw_flags ≡ 0) ⊎ (s.raw_flags ≡ write_closed)

-- The reader is marked as closed, and the writer may be.
abbrev pub SaysClosed : ℕ → Type 0
SaysClosed v = (v ≡ read_closed) ⊎ (v ≡ read_write_closed)

flags-SaysClosed : (v : ℕ) → SaysClosed v → SaysClosed (flags v)
unfolding flags
flags-SaysClosed v (inl e) = rw e (inl refl)
flags-SaysClosed v (inr e) = rw e (inr refl)

module _ (bits : Bitflags) where
  stored-SaysClosed :
      (raw : ℕ) → (raw ≡ 0) ⊎ (raw ≡ write_closed) → SaysClosed (add_flags bits read_closed raw)
  unfolding flags add_flags
  stored-SaysClosed raw (inl e) = rw e (rw (bits.union_bits 0 1) (inl refl))
  stored-SaysClosed raw (inr e) = rw e (rw (bits.union_bits 2 1) (inr refl))

module _ {Sender : Type 0} (channel : Channel Sender (Transaction Sender)) (token : Token) where
  -- What the task has sent when it ends, by what the loop read and how that ended; and of what kind the
  -- flags of the report are.
  abbrev pub Sends :
      {C : Type 0}
      → (ℕ → Type 0)
      → List Frame × (End × C)
      → Reporter channel
      → Outcome ⊥ (Unit {0}) × Reporter channel
      → Type 0
  Sends P (fs, (broken, c)) s r =
      (r.0 ≡ ok tt)
      × ((v : ℕ) × (r.1.sends ≡ s.sends ++ in_frames token fs ++ (link_changed v token ∷ [])) × P v)
  Sends P (fs, (panicked, c)) s r = (r.0 ≡ panic) × (r.1.sends ≡ s.sends ++ in_frames token fs)
  Sends P (fs, (more, c)) s r = (r.0 ≡ ok tt) × (r.1.sends ≡ s.sends ++ in_frames token fs)

module _ {Sender : Type 0} (bits : Bitflags) (channel : Channel Sender (Transaction Sender))
    (incoming_tx : Sender) (token : Token) (others : ℕ → Reporter channel → Reporter channel) where
  -- The link when `flags` is loaded for the report.
  abbrev reported : ℕ → Reporter channel → Reporter channel
  reported val s =
      let s1 : Reporter channel = others_after bits channel incoming_tx token others 1 s in
      let s2 : Reporter channel = others_after bits channel incoming_tx token others 2 s1 in
      others_after bits channel incoming_tx token others 3
        (record s2 { raw_flags = add_flags bits val s1.raw_flags })

  module _ (I P : ℕ → Type 0)
      (keep : (n : ℕ) (s : Reporter channel) → I s.raw_flags → I (others n s).raw_flags)
      (closing : (s : Reporter channel)
        → I s.raw_flags
        → P (flags (reported read_closed s).raw_flags)) where
    send_frames-in_frames :
        (fs : List Frame) (s : Reporter channel)
        → I s.raw_flags
        → (s' : Reporter channel) × (send_frames bits channel incoming_tx token others fs s
            ≡ (ok tt, s'))
          × (s'.sends ≡ s.sends ++ in_frames token fs)
          × I s'.raw_flags
    unfolding send_frames send_incoming
    send_frames-in_frames [] s h = (s, refl, sym (append-nil s.sends), h)
    send_frames-in_frames (f ∷ rest) s h =
        let (s', e, q, h') = send_frames-in_frames rest _ (keep (length s.sends) s h) in
        (s', e, simp (q, append_assoc), h')

    ending-Sends :
        {C : Type 0} (fs : List Frame) (end : End) (c : C) (s : Reporter channel)
        → I s.raw_flags
        → Sends channel token P
            (fs, (end, c))
            s
            ((send_frames bits channel incoming_tx token others fs
                >> at_end bits channel incoming_tx token others end)
              s)
    unfolding at_end report send_incoming
    ending-Sends fs end c s h =
        let (s', e, q, h') = send_frames-in_frames fs s h in rw e (ended end s' q h')
      where
        ended :
            (end : End) (s' : Reporter channel)
            → s'.sends ≡ s.sends ++ in_frames token fs
            → I s'.raw_flags
            → Sends channel token P
                (fs, (end, c))
                s
                (at_end bits channel incoming_tx token others end s')
        ended broken s' q h' = (
          refl,
          (
            flags (reported read_closed s').raw_flags,
            ap (λ l. l ++ (link_changed (flags (reported read_closed s').raw_flags) token ∷ [])) q,
            closing s' h',
          ),
        )
        ended panicked s' q h' = (refl, q)
        ended more s' q h' = (refl, q)

    task-Sends :
        (buf : BytesMut) (http : Httparse) (tcp : TcpStream) (fuel : ℕ) (c : tcp.Conn)
        (s : Reporter channel)
        → I s.raw_flags
        → Sends channel token P
            (read_loop bits buf http tcp fuel c)
            s
            (read_task bits channel incoming_tx token others buf http tcp fuel c s)
    unfolding read_task
    task-Sends buf http tcp fuel c s h =
        let r = read_loop bits buf http tcp fuel c in ending-Sends r.0 r.1.0 r.1.1 s h

  -- Whatever other tasks do to the flags: the frames that the loop read, and a report where it was
  -- broken.
  pub read_task-in_frames :
      (buf : BytesMut) (http : Httparse) (tcp : TcpStream) (fuel : ℕ) (c : tcp.Conn)
      (s : Reporter channel)
      → Sends channel token
          (λ v. Unit {0})
          (read_loop bits buf http tcp fuel c)
          s
          (read_task bits channel incoming_tx token others buf http tcp fuel c s)
  read_task-in_frames buf http tcp fuel c s =
      task-Sends (λ v. Unit {0}) (λ v. Unit {0}) (λ n x h. tt) (λ x h. tt) buf http tcp fuel c s tt

  -- If the reader is not marked as closed and other tasks do not mark it; and if they do not take its
  -- mark away once the reading task has stored it, as an `add_flags` does that overlaps: whatever the
  -- stream delivers and whatever they do else, the reading task sends on each frame that the loop read,
  -- in order and under the token of the link; and then, exactly where the loop was broken, one report,
  -- which says READ_CLOSED or READ_WRITE_CLOSED. Where the loop panics, so does the task, with no
  -- report.
  pub read_task-Sends :
      (buf : BytesMut) (http : Httparse) (tcp : TcpStream) (fuel : ℕ) (c : tcp.Conn)
      (s : Reporter channel)
      → ((n : ℕ) (x : Reporter channel) → Reading channel x → Reading channel (others n x))
      → ((n : ℕ) (x : Reporter channel)
          → SaysClosed x.raw_flags
          → SaysClosed (others n x).raw_flags)
      → Reading channel s
      → Sends channel token SaysClosed
          (read_loop bits buf http tcp fuel c)
          s
          (read_task bits channel incoming_tx token others buf http tcp fuel c s)
  read_task-Sends buf http tcp fuel c s keep hold h =
      task-Sends (λ raw. (raw ≡ 0) ⊎ (raw ≡ write_closed)) SaysClosed keep
        (λ x k. flags-SaysClosed _ (hold _ _ (stored-SaysClosed bits _ (keep _ x k)))) buf http tcp
        fuel c s h

-- The writer is marked as closed, and the reader may be.
abbrev pub SaysWritten : ℕ → Type 0
SaysWritten v = (v ≡ write_closed) ⊎ (v ≡ read_write_closed)

flags-SaysWritten : (v : ℕ) → SaysWritten v → SaysWritten (flags v)
unfolding flags
flags-SaysWritten v (inl e) = rw e (inl refl)
flags-SaysWritten v (inr e) = rw e (inr refl)

module _ (bits : Bitflags) where
  stored-SaysWritten :
      (raw : ℕ) → (raw ≡ 0) ⊎ (raw ≡ read_closed) → SaysWritten (add_flags bits write_closed raw)
  unfolding flags add_flags
  stored-SaysWritten raw (inl e) = rw e (rw (bits.union_bits 0 2) (inl refl))
  stored-SaysWritten raw (inr e) = rw e (rw (bits.union_bits 1 2) (inr refl))

module _ {Sender : Type 0} (channel : Channel Sender (Transaction Sender)) where
  -- The writer is not marked as closed.
  abbrev pub Writing : Reporter channel → Type 0
  Writing s = (s.raw_flags ≡ 0) ⊎ (s.raw_flags ≡ read_closed)

  -- What the writing task has sent, by how its loop went: one report at the end, where the loop has
  -- ended; nothing, where it waits for more or panicked.
  abbrev pub Reports :
      Token
      → (ℕ → Type 0)
      → Outcome ⊥ Bool
      → List (Transaction Sender)
      → Outcome ⊥ Bool × Reporter channel
      → Type 0
  Reports token P (ok true) sends r =
      (r.0 ≡ ok true) × (v : ℕ) × (r.1.sends ≡ sends ++ (link_changed v token ∷ [])) × P v
  Reports token P (ok false) sends r = (r.0 ≡ ok false) × (r.1.sends ≡ sends)
  Reports token P _ sends r = (r.0 ≡ panic) × (r.1.sends ≡ sends)

  module _ (bits : Bitflags) (incoming_tx : Sender) (token : Token)
      (others : ℕ → Reporter channel → Reporter channel) (buf : BytesMut) (tcp : TcpStream)
      (received : List ((tcp.Conn → tcp.Conn) × Transaction Sender)) (c : tcp.Conn)
      (s : Reporter channel) where
    ended-Reports :
        (P : ℕ → Type 0)
        → P (flags (reported bits channel incoming_tx token others write_closed s).raw_flags)
        → Reports token P
            (write_loop bits buf tcp received c).0
            s.sends
            (write_task bits channel incoming_tx token others buf tcp received c s)
    unfolding write_task leave report send_incoming
    ended-Reports P h = after (write_loop bits buf tcp received c).0
      where
        after :
            (r : Outcome ⊥ Bool)
            → Reports token P r s.sends ((lift r >>= leave bits channel incoming_tx token others) s)
        after (ok true) = (refl, _, refl, h)
        after (ok false) = (refl, refl)
        after (err e) = absurd e
        after panic = (refl, refl)

    -- Whatever other tasks do to the flags: a report exactly where the loop has ended.
    pub write_task-reported :
        Reports token
          (λ v. Unit {0})
          (write_loop bits buf tcp received c).0
          s.sends
          (write_task bits channel incoming_tx token others buf tcp received c s)
    write_task-reported = ended-Reports (λ v. Unit {0}) tt

    -- If the writer is not marked as closed and other tasks do not mark it, and do not write; if they do
    -- not take its mark away once the writing task has stored it, as an `add_flags` does that overlaps;
    -- and the frames received have numbers that fit: the writing task wrote exactly the bytes and the
    -- layouts of the frames received up to the first LinkChanged that contains READ_CLOSED, at which its
    -- loop ends, and waits for more where there is none; or the connection failed, which ends the loop.
    -- Exactly where the loop has ended the task has sent one report, which says WRITE_CLOSED or
    -- READ_WRITE_CLOSED.
    pub write_task-Reports :
        ((n : ℕ) (x : Reporter channel) → Writing x → Writing (others n x))
        → ((n : ℕ) (x : Reporter channel)
            → SaysWritten x.raw_flags
            → SaysWritten (others n x).raw_flags)
        → All (λ r. KeepsWritten tcp r.0 × IsWritable r.1) received
        → Writing s
        → WritesAll tcp
            (write_loop bits buf tcp)
            (write_one bits buf tcp)
            (link_ends bits buf tcp)
            received
            c
          × Reports token SaysWritten
              (write_loop bits buf tcp received c).0
              s.sends
              (write_task bits channel incoming_tx token others buf tcp received c s)
    write_task-Reports keep hold v h = (
      write_loop-WritesAll bits buf tcp received c v,
      ended-Reports SaysWritten
          (flags-SaysWritten _ (hold _ _ (stored-SaysWritten bits _ (keep _ s h)))),
    )
