-- ===== src/Link/Ends.antt =====
-- The read loops of links and clients end, on every stream: each round that goes well takes the nine
-- bytes of a header off what is still to come.
use h2l.Base.{
  ℕ, zero, suc, ◌+◌, ◌≤◌, ◌<◌, ◌≡◌, ◌≢◌, ap, List, arith, length, take, drop, take-append-drop,
  length-take, length-drop,
}
use native.Mathlib.Decide.{dec_lt}
use h2l.Base.Outcome.{Outcome, ok, err, panic}
use h2l.Base.Exec.{Exec, continue, lift, pure, ◌>>=◌}
use h2l.Crates.Bitflags.{Bitflags}
use h2l.Crates.BytesMut.{BytesMut}
use h2l.Crates.TcpStream.{TcpStream}
use h2l.Frame.Error.{Error}
use h2l.Frame.Head
use h2l.Frame.Head.{Head, Kind}
use h2l.Frame.Any.{Frame}
use h2l.Link.Read.{more, read, after_round, read_rounds}
use h2l.Link.Reads.{head_read, frame_read}

module _ (bits : Bitflags) (buf : BytesMut) (tcp : TcpStream) where
  open tcp use {Conn, incoming, read_exact, read_exact_enough, read_exact_short}

  -- How much is still to come after a run that went well.
  abbrev pub Left {ℓ} : {E : Type 0} {A : Type ℓ} → ℕ → Conn → Outcome E A × Conn → Type 0
  Left n c (ok a, c') = length (incoming c') + n ≤ length (incoming c)
  Left n c (err e, c') = Unit {0}
  Left n c (panic, c') = Unit {0}

  -- A run that takes at least so many bytes when it goes well.
  abbrev pub Takes {ℓ} : {E : Type 0} {A : Type ℓ} → ℕ → Exec Conn E A → Type 0
  Takes n m = (c : Conn) → Left n c (m c)

  pub read-Takes : (n : ℕ) → Takes n (read bits buf tcp n)
  read-Takes n c = elim (dec_lt (length (incoming c)) n) [
    | yes short ↦ let (e, c', q) = read_exact_short c n short in rw q tt
    | no enough ↦
        let xs = take n (incoming c) in
        let sized : length xs ≡ n = length-take n (incoming c) (omega arith) in
        let (c', q, i, w) =
          read_exact_enough c xs (drop n (incoming c)) (take-append-drop n (incoming c)) in
        let q' : read_exact n c ≡ (ok xs, c') = rw sized at q in
        rw q' (omega (arith, length-drop n (incoming c), ap (λ (l : List ℕ). length l) i))
  ]

  pub lift-Takes {ℓ} : {A : Type ℓ} (r : Outcome Error A) → Takes 0 (lift {S = Conn} r)
  lift-Takes (ok a) c = omega arith
  lift-Takes (err e) c = tt
  lift-Takes panic c = tt

  pub >>=-Takes {ℓ κ} :
      {A : Type ℓ} {B : Type κ} (n k : ℕ) (m : Exec Conn Error A) (f : A → Exec Conn Error B)
      → Takes n m
      → ((a : A) → Takes k (f a))
      → Takes (n + k) (m >>= f)
  >>=-Takes {A = A} {B = B} n k m f hm hf c = after (m c).0 (m c).1 (hm c)
    where
      then_taken :
          (c' : Conn) (s : Outcome Error B) (c'' : Conn)
          → length (incoming c') + n ≤ length (incoming c)
          → Left k c' (s, c'')
          → Left (n + k) c (s, c'')
      then_taken c' (ok b) c'' h h' = omega arith
      then_taken c' (err e) c'' h h' = tt
      then_taken c' panic c'' h h' = tt

      after :
          (r : Outcome Error A) (c' : Conn) → Left n c (r, c') → Left (n + k) c (continue r f c')
      after (ok a) c' h = then_taken c' (f a c').0 (f a c').1 h (hf a c')
      after (err e) c' h = tt
      after panic c' h = tt

  pub frame_read-Takes :
      (payload_read : Kind → Head → ℕ → Exec Conn Error Frame)
      → ((k : Kind) (head : Head) (n : ℕ) → Takes 0 (payload_read k head n))
      → Takes 9 (frame_read bits buf tcp payload_read)
  frame_read-Takes payload_read h =
      >>=-Takes 9 0 (head_read bits buf tcp) (λ (p : Head × ℕ). payload_read p.0.kind p.0 p.1)
        (>>=-Takes 9 0 (read bits buf tcp 9)
          (λ buffer. lift (Head.parse buffer) >>= λ head. pure (head, buf.get_uint buffer 3))
          (read-Takes 9)
          (λ buffer.
            >>=-Takes 0 0 (lift (Head.parse buffer)) (λ head. pure (head, buf.get_uint buffer 3))
              (lift-Takes (Head.parse buffer))
              (λ head. lift-Takes {A = Head × ℕ} (ok (head, buf.get_uint buffer 3)))))
        (λ p. h p.0.kind p.0 p.1)

  -- The rounds end before the fuel does where the fuel exceeds what is still to come.
  pub read_rounds-ne-more :
      (round : Exec Conn Error Frame) (fuel : ℕ) (c : Conn)
      → Takes 9 round
      → length (incoming c) < fuel
      → (read_rounds bits buf tcp round fuel c).1.0 ≢ more
  unfolding read_rounds after_round
  read_rounds-ne-more round zero c t h = absurd (omega arith)
  read_rounds-ne-more round (suc fuel) c t h =
      after (round c).0 (round c).1 (t c) (λ c' h'. read_rounds-ne-more round fuel c' t h')
    where
      after :
          (r : Outcome Error Frame) (c' : Conn)
          → Left 9 c (r, c')
          → ((d : Conn)
              → length (incoming d) < fuel
              → (read_rounds bits buf tcp round fuel d).1.0 ≢ more)
          → (after_round bits buf tcp (read_rounds bits buf tcp round fuel) (r, c')).1.0 ≢ more
      after (ok f) c' left again = again c' (omega arith)
      after (err e) c' left again = λ q. cc q
      after panic c' left again = λ q. cc q

  pub Takes-weaken {ℓ} : {A : Type ℓ} (n : ℕ) (m : Exec Conn Error A) → Takes n m → Takes 0 m
  Takes-weaken {A = A} n m h c = fewer (m c).0 (m c).1 (h c)
    where
      fewer : (r : Outcome Error A) (c' : Conn) → Left n c (r, c') → Left 0 c (r, c')
      fewer (ok a) c' t = omega arith
      fewer (err e) c' t = tt
      fewer panic c' t = tt

  -- A payload that is read whole and then loaded.
  pub load-Takes :
      (n : ℕ) (g : List ℕ → Outcome Error Frame)
      → Takes 0 (read bits buf tcp n >>= λ payload. lift (g payload))
  load-Takes n g =
      let run = read bits buf tcp n >>= λ payload. lift (g payload) in
      Takes-weaken (n + 0) run (
        >>=-Takes n 0 (read bits buf tcp n) (λ payload. lift (g payload)) (read-Takes n)
          (λ payload. lift-Takes (g payload)))
