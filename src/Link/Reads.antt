-- ===== src/Link/Reads.antt =====
-- Reading the frames that a peer wrote off a stream, and the loop over it, for any way of reading
-- the payloads.
use h2l.Base.{
  ℕ, zero, suc, ◌<◌, ◌≡◌, ◌≢◌, refl, ap, ◌∙◌, List, [], ◌∷◌, ◌++◌, append_assoc, append-nil, arith,
  length, All,
}
use h2l.Base.Outcome.{Outcome, ok, err}
use h2l.Base.Exec.{Exec, lift, pure, ◌>>=◌, >>=-ok}
use h2l.Crates.Bitflags.{Bitflags}
use h2l.Crates.BytesMut.{BytesMut}
use h2l.Crates.TcpStream.{TcpStream}
use h2l.Frame.Error.{Error, io}
use h2l.Frame.Head
use h2l.Frame.Head.{Head, Kind}
use h2l.Frame.Head.Wire.{wire, IsHead, parse-wire, get_uint-wire}
use h2l.Frame.Any.{Frame}
use h2l.Frame.Any.Wire.{frame_wire}
use h2l.Link.Read.{End, broken, read, read_rounds}

-- The bytes of one frame after the other.
abbrev pub stream_wire : List Frame → List ℕ
stream_wire [] = []
stream_wire (f ∷ fs) = frame_wire f ++ stream_wire fs

-- The frames, as they are received.
abbrev pub all_received : (Frame → Frame) → List Frame → List Frame
all_received received [] = []
all_received received (f ∷ fs) = received f ∷ all_received received fs

module _ (bits : Bitflags) (buf : BytesMut) (tcp : TcpStream) where
  open tcp use {Conn, incoming, read_exact_enough, read_exact_short}
  open buf use {get_uint}

  -- The run gives this value, and leaves this still to be read.
  abbrev pub Reads : {A : Type 0} → Exec Conn Error A → Conn → A → List ℕ → Type 0
  Reads run c a rest = (c' : Conn) × (run c ≡ (ok a, c')) × (incoming c' ≡ rest)

  read-Reads :
      (c : Conn) (xs rest : List ℕ)
      → incoming c ≡ xs ++ rest
      → Reads (read bits buf tcp (length xs)) c xs rest
  read-Reads c xs rest h = let (c', e, i, w) = read_exact_enough c xs rest h in (c', rw e refl, i)

  -- The nine bytes of a header, and what they say.
  abbrev pub head_read : Exec Conn Error (Head × ℕ)
  head_read = read bits buf tcp 9 >>= λ buffer.
      lift (Head.parse buffer) >>= λ head. pure (head, get_uint buffer 3)

  head_read-Reads :
      (c : Conn) (head : Head) (n : ℕ) (rest : List ℕ)
      → IsHead head
      → head.kind ≢ Kind.bin_code
      → n < 0x100_0000
      → incoming c ≡ wire head n ++ rest
      → Reads head_read c (head, n) rest
  head_read-Reads c head n rest v k hn h =
      let (c', e, i) = read-Reads c (wire head n) rest h in
      let parsed = rw append-nil at (parse-wire head n [] v k) in
      let sized = rw append-nil at (get_uint-wire buf head n [] hn) in
      (
        c',
        >>=-ok (read bits buf tcp 9) _ c c' (wire head n) e
            ∙ >>=-ok (lift (Head.parse (wire head n))) _ c' c' head
                (ap (λ (r : Outcome Error Head). (r, c')) parsed)
            ∙ ap (λ (l : ℕ). (ok (head, l), c')) sized,
        i,
      )

  -- A payload that is read whole and then loaded.
  pub load-Reads :
      (xs rest : List ℕ) (g : List ℕ → Outcome Error Frame) (c : Conn) (f : Frame)
      → incoming c ≡ xs ++ rest
      → g xs ≡ ok f
      → Reads (read bits buf tcp (length xs) >>= λ payload. lift (g payload)) c f rest
  load-Reads xs rest g c f h q =
      let (c', e, i) = read-Reads c xs rest h in
      (
        c',
        >>=-ok (read bits buf tcp (length xs)) (λ payload. lift (g payload)) c c' xs e
            ∙ ap (λ (r : Outcome Error Frame). (r, c')) q,
        i,
      )

  -- A header, and then a payload that is read by its kind.
  abbrev pub frame_read : (Kind → Head → ℕ → Exec Conn Error Frame) → Exec Conn Error Frame
  frame_read payload_read = head_read >>= λ (p : Head × ℕ). payload_read p.0.kind p.0 p.1

  pub frame_read-Reads :
      (payload_read : Kind → Head → ℕ → Exec Conn Error Frame) (head : Head) (payload rest : List ℕ)
      (c : Conn) (f : Frame)
      → IsHead head
      → head.kind ≢ Kind.bin_code
      → length payload < 0x100_0000
      → incoming c ≡ wire head (length payload) ++ payload ++ rest
      → ((c' : Conn)
          → incoming c' ≡ payload ++ rest
          → Reads (payload_read head.kind head (length payload)) c' f rest)
      → Reads (frame_read payload_read) c f rest
  frame_read-Reads payload_read head payload rest c f v k hn h next =
      let (c', e, i) = head_read-Reads c head (length payload) (payload ++ rest) v k hn h in
      let (c'', e', i') = next c' i in
      (
        c'',
        >>=-ok head_read (λ (p : Head × ℕ). payload_read p.0.kind p.0 p.1) c c'
              (head, length payload) e
            ∙ e',
        i',
      )

  pub frame_read_short :
      (payload_read : Kind → Head → ℕ → Exec Conn Error Frame) (c : Conn)
      → length (incoming c) < 9
      → (e : Error) × (c' : Conn) × (frame_read payload_read c ≡ (err e, c'))
  frame_read_short payload_read c h =
      let (e, c', q) = read_exact_short c 9 h in (io e, c', rw q refl)

  -- A round of the loop.
  pub read_rounds_ok :
      (round : Exec Conn Error Frame) (fuel : ℕ) (c c' : Conn) (f : Frame)
      → round c ≡ (ok f, c')
      → read_rounds bits buf tcp round (suc fuel) c ≡ (
        f ∷ (read_rounds bits buf tcp round fuel c').0,
        (read_rounds bits buf tcp round fuel c').1,
      )
  unfolding read_rounds
  read_rounds_ok round fuel c c' f e = rw e

  read_rounds_err :
      (round : Exec Conn Error Frame) (fuel : ℕ) (c c' : Conn) (e : Error)
      → round c ≡ (err e, c')
      → read_rounds bits buf tcp round (suc fuel) c ≡ ([], (broken, c'))
  unfolding read_rounds
  read_rounds_err round fuel c c' e q = rw q

  -- A loop whose rounds read the layouts of some frames, each as something else.
  module _ (payload_read : Kind → Head → ℕ → Exec Conn Error Frame) (Readable : Frame → Type 0)
      (received : Frame → Frame)
      (step : (f : Frame) (c : Conn) (rest : List ℕ)
        → Readable f
        → incoming c ≡ frame_wire f ++ rest
        → Reads (frame_read payload_read) c (received f) rest) where
    pub read_rounds-stream_wire :
        (fuel : ℕ) (fs : List Frame) (c : Conn) (tail : List ℕ)
        → All Readable fs
        → incoming c ≡ stream_wire fs ++ tail
        → length tail < 9
        → length fs < fuel
        → (c' : Conn) × (read_rounds bits buf tcp (frame_read payload_read) fuel c
            ≡ (all_received received fs, (broken, c')))
    read_rounds-stream_wire zero fs c tail v h ht hf = absurd (omega arith)
    read_rounds-stream_wire (suc fuel) [] c tail v h ht hf =
        let (e, c', q) = frame_read_short payload_read c (rw h ht) in
        (c', read_rounds_err (frame_read payload_read) fuel c c' e q)
    read_rounds-stream_wire (suc fuel) (f ∷ fs) c tail v h ht hf =
        let (c', q, i) =
          step f c (stream_wire fs ++ tail) v.0
            (h ∙ append_assoc (frame_wire f) (stream_wire fs) tail) in
        let (c'', r) = read_rounds-stream_wire fuel fs c' tail v.1 i ht (omega arith) in
        (
          c'',
          read_rounds_ok (frame_read payload_read) fuel c c' (received f) q
              ∙ ap (λ (p : List Frame × (End × Conn)). (received f ∷ p.0, p.1)) r,
        )
