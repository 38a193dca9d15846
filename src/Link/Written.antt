-- ===== src/Link/Written.antt =====
-- What the write loops of links and clients put onto the stream.
use h2l.Base.{
  ℕ, ◌≡◌, refl, ap, sym, ◌∙◌, ◌⊎◌, inl, inr, Bool, true, false, if◌then◌else◌, Bool-cases, List, [],
  ◌∷◌, ◌++◌, append-nil, append_assoc, All,
}
use h2l.Base.Outcome.{ok, err}
use h2l.Base.Exec.{Exec, pure, >>=-ok, >>=-err, ◌>>◌}
use h2l.Crates.Bitflags.{Bitflags}
use h2l.Crates.BytesMut.{BytesMut}
use h2l.Crates.TcpStream.{TcpStream}
use h2l.Frame.Error.{IoError}
use h2l.Frame.Any.{write_to}
use h2l.Frame.Any.Wire.{frame_wire, IsSendable, Sends, write_to-frame_wire}
use h2l.Transaction.{
  Transaction, bytes, frame, client_changed, link_changed, new_link, server_changed,
}
use h2l.Server.Forward.{read_closed}
use h2l.Link.Write.{after_write, write_rounds, write_one, write_loop}

module _ {Sender : Type 0} where
  -- The bytes of a transaction: bytes are written as they are, a frame as its layout.
  abbrev pub transaction_wire : Transaction Sender → List ℕ
  transaction_wire (bytes xs token) = xs
  transaction_wire (frame f token) = frame_wire f
  transaction_wire _ = []

  -- A frame has numbers that fit.
  abbrev pub IsWritable : Transaction Sender → Type 0
  IsWritable (frame f token) = IsSendable f
  IsWritable _ = Unit {0}

  -- The bytes of the transactions up to the one that ends the loop.
  abbrev pub outgoing_wire {ℓ} :
      {A : Type ℓ} → (Transaction Sender → Bool) → List (A × Transaction Sender) → List ℕ
  outgoing_wire ends [] = []
  outgoing_wire ends ((others, tr) ∷ rest) =
      let more = outgoing_wire ends rest in transaction_wire tr ++ (if ends tr then [] else more)

  -- One of the transactions tells the loop to end.
  abbrev pub is_told {ℓ} :
      {A : Type ℓ} → (Transaction Sender → Bool) → List (A × Transaction Sender) → Bool
  is_told ends [] = false
  is_told ends ((others, tr) ∷ rest) =
      let more = is_told ends rest in if ends tr then true else more

module _ (tcp : TcpStream) where
  open tcp use {Conn, written}

  -- What was written is left alone.
  abbrev pub KeepsWritten : (Conn → Conn) → Type 0
  KeepsWritten others = (c : Conn) → written (others c) ≡ written c

  -- A write, and then the end of the round.
  pub Sends-Writes :
      (m : Exec Conn IoError (Unit {0})) (b : Bool) (ws : List ℕ) (c : Conn)
      → Sends tcp m c ws
      → ((c' : Conn) × ((m >> pure b) c ≡ (ok b, c')) × (written c' ≡ written c ++ ws))
        ⊎ ((e : IoError) × (c' : Conn) × ((m >> pure b) c ≡ (err e, c')))
  Sends-Writes m b ws c (inl (c', e, q, i)) = inl (c', >>=-ok m (λ _. pure b) c c' tt e, q)
  Sends-Writes m b ws c (inr (x, c', e)) = inr (x, c', >>=-err m (λ _. pure b) c c' x e)

module _ {Sender : Type 0} (tcp : TcpStream) where
  open tcp use {Conn, written}

  -- The connection failed under the first transaction that was not written whole, and that ended the
  -- run; those before it were written whole.
  abbrev pub Failed :
      (Transaction Sender → Exec Conn IoError Bool)
      → List ((Conn → Conn) × Transaction Sender)
      → Conn
      → Conn
      → Type 0
  Failed round [] c c' = ⊥
  Failed round ((others, tr) ∷ rest) c c' =
      ((e : IoError) × (round tr (others c) ≡ (err e, c')))
      ⊎ ((c1 : Conn) × (round tr (others c) ≡ (ok false, c1))
          × (written c1 ≡ written c ++ transaction_wire tr)
          × Failed round rest c1 c')

  -- One round writes the bytes of its transaction and says whether it ends the loop, or fails.
  abbrev pub Writes :
      (Transaction Sender → Exec Conn IoError Bool)
      → (Transaction Sender → Bool)
      → Transaction Sender
      → Type 0
  Writes round ends tr =
      (c : Conn)
      → ((c' : Conn) × (round tr c ≡ (ok (ends tr), c'))
          × (written c' ≡ written c ++ transaction_wire tr))
        ⊎ ((e : IoError) × (c' : Conn) × (round tr c ≡ (err e, c')))

  -- The loop wrote exactly the bytes of the transactions up to the one that tells it to end, and it
  -- has ended if there is such a transaction, and waits for more if there is none; or the connection
  -- failed under one of them, which ended the loop.
  abbrev pub WritesAll :
      (List ((Conn → Conn) × Transaction Sender) → Exec Conn ⊥ Bool)
      → (Transaction Sender → Exec Conn IoError Bool)
      → (Transaction Sender → Bool)
      → List ((Conn → Conn) × Transaction Sender)
      → Conn
      → Type 0
  WritesAll loop round ends received c =
      (c' : Conn) × (left : Bool) × (loop received c ≡ (ok left, c'))
      × (((left ≡ is_told ends received) × (written c' ≡ written c ++ outgoing_wire ends received))
          ⊎ ((left ≡ true) × Failed round received c c'))

  pub write_rounds-WritesAll :
      (round : Transaction Sender → Exec Conn IoError Bool) (ends : Transaction Sender → Bool)
      → ((tr : Transaction Sender) → IsWritable tr → Writes round ends tr)
      → (received : List ((Conn → Conn) × Transaction Sender)) (c : Conn)
      → All (λ r. KeepsWritten tcp r.0 × IsWritable r.1) received
      → WritesAll (write_rounds tcp round) round ends received c
  unfolding write_rounds after_write
  write_rounds-WritesAll round ends step [] c v =
      (c, false, refl, inl (refl, sym (append-nil (written c))))
  write_rounds-WritesAll round ends step ((others, tr) ∷ rest) c ((keeps, w), vs) =
      elim (step tr w (others c)) [
        | inl (c', e, q) ↦
            let q' = q ∙ ap (λ (l : List ℕ). l ++ transaction_wire tr) (keeps c) in
            elim (Bool-cases (ends tr)) [
              | inl stop ↦ (
                c',
                true,
                rw (e, stop) refl,
                inl (
                  rw stop refl,
                  rw stop (
                      q'
                      ∙ ap (λ (l : List ℕ). written c ++ l)
                          (sym (append-nil (transaction_wire tr)))),
                ),
              )
              | inr on ↦
                  let (c'', left, e', q'') = write_rounds-WritesAll round ends step rest c' vs in
                  (
                    c'',
                    left,
                    rw (e, on) e',
                    elim q'' [
                      | inl (t, p) ↦ inl (
                        t ∙ rw on refl,
                        rw on (
                            p
                            ∙ ap (λ (l : List ℕ). l ++ outgoing_wire ends rest) q'
                            ∙ append_assoc (written c) (transaction_wire tr)
                                (outgoing_wire ends rest)),
                      )
                      | inr (t, p) ↦ inr (t, inr (c', rw on at e, q', p))
                    ],
                  )
            ]
        | inr (x, c', e) ↦ (c', true, rw e refl, inr (refl, inl (x, e)))
      ]

module _ {Sender : Type 0} (bits : Bitflags) (buf : BytesMut) (tcp : TcpStream) where
  open tcp use {Conn, write_all, write_all_cases}

  -- What ends the write loop of a link: its reader was closed.
  abbrev pub link_ends : Transaction Sender → Bool
  link_ends (link_changed flags token) = bits.contains flags read_closed
  link_ends _ = false

  write_one-Writes :
      (tr : Transaction Sender) → IsWritable tr → Writes tcp (write_one bits buf tcp) link_ends tr
  unfolding write_one
  write_one-Writes (bytes xs token) v c =
      Sends-Writes tcp (write_all xs) false xs c (write_all_cases c xs)
  write_one-Writes (frame f token) v c =
      Sends-Writes tcp (write_to buf tcp f) false (frame_wire f) c
        (write_to-frame_wire buf tcp f c v)
  write_one-Writes (link_changed flags token) v c = inl (c, refl, sym (append-nil (tcp.written c)))
  write_one-Writes (client_changed flags token) v c =
      inl (c, refl, sym (append-nil (tcp.written c)))
  write_one-Writes (new_link link) v c = inl (c, refl, sym (append-nil (tcp.written c)))
  write_one-Writes (server_changed flags) v c = inl (c, refl, sym (append-nil (tcp.written c)))

  -- The write loop of a link, while the other task does not write: where the frames that it receives
  -- have numbers that fit, it wrote exactly the bytes and the layouts of the frames, in the order
  -- received and up to the first LinkChanged that contains READ_CLOSED, at which it ends; or the
  -- connection failed, which ends it.
  pub write_loop-WritesAll :
      (received : List ((Conn → Conn) × Transaction Sender)) (c : Conn)
      → All (λ r. KeepsWritten tcp r.0 × IsWritable r.1) received
      → WritesAll tcp (write_loop bits buf tcp) (write_one bits buf tcp) link_ends received c
  unfolding write_loop
  write_loop-WritesAll received c v =
      write_rounds-WritesAll tcp (write_one bits buf tcp) link_ends write_one-Writes received c v
