-- ===== src/Link/Opening.antt =====
-- What a link does when a connection opens.
use h2l.Base.{
  ℕ, ◌-◌, ◌<◌, ◌≡◌, ◌≢◌, refl, ap, ◌∙◌, ◌⊎◌, inl, inr, true, Bool-cases, List, ◌++◌, append_assoc,
  length, All, same_bytes, same_bytes→eq,
}
use h2l.Base.Outcome.{Outcome, ok, err, panic}
use h2l.Base.Exec.{Exec}
use h2l.Consts.{http_2_0_preface, http_1_1_switching_protocols}
use h2l.Crates.Bitflags.{Bitflags}
use h2l.Crates.BytesMut.{BytesMut}
use h2l.Crates.Httparse.{Httparse, Request, ParseError}
use h2l.Crates.TcpStream.{TcpStream}
use h2l.Frame.Error.{IoError}
use h2l.Frame.Any.{Frame}
use h2l.Link.Read.{broken}
use h2l.Link.Reads.{stream_wire, all_received}
use h2l.Link.Receive.{IsReadable, received, read_frames-stream_wire}
use h2l.Link.Handshake.{
  zeros, asks_upgrade, handshake_http_1_1_upgrade, check_magic, handshake_http2_prior_knowledge,
  after_first, handshake, after_handshake, read_loop,
}

module _ (http : Httparse) (tcp : TcpStream) where
  open tcp use {
    Conn, incoming, written, read, read_cases, read_exact, read_exact_enough, written-read_exact,
    write_all, write_all_cases,
  }

  prior_knowledge_preface :
      (c : Conn) (rest : List ℕ)
      → incoming c ≡ http_2_0_preface ++ rest
      → (c' : Conn) × (handshake_http2_prior_knowledge http tcp c ≡ (ok tt, c'))
        × (incoming c' ≡ rest)
        × (written c' ≡ written c)
  unfolding handshake_http2_prior_knowledge check_magic
  prior_knowledge_preface c rest h =
      let (c', e, i, w) = read_exact_enough c http_2_0_preface rest h in (c', rw e refl, i, w)

  -- A peer that opens with the preface of HTTP/2: the handshake takes it, writes nothing and is done.
  pub handshake-preface :
      (c : Conn) (rest : List ℕ)
      → incoming c ≡ http_2_0_preface ++ rest
      → (c' : Conn) × (handshake http tcp c ≡ (ok tt, c'))
        × (incoming c' ≡ rest)
        × (written c' ≡ written c)
  unfolding handshake after_first
  handshake-preface c rest h =
      let (c', e, i, w) = prior_knowledge_preface c rest h in (c', rw e refl, i, w)

  -- A run that writes nothing, however it ends.
  Silent : {E A : Type 0} → Exec Conn E A → Type 0
  Silent m = (c : Conn) → written (m c).1 ≡ written c

  -- The request asked for the upgrade.
  abbrev pub AskedUpgrade : Type 0
  AskedUpgrade =
      (buffer : List ℕ) × (req : Request) × (http.parse buffer ≡ ok req)
      × (req.is_complete ≡ true)
      × (asks_upgrade req.headers ≡ true)

  -- The connection failed on the answer.
  abbrev pub AnswerFails : List ℕ → List ℕ → Type 0
  AnswerFails before after =
      (c : Conn) × (e : IoError) × (c' : Conn) × (written c ≡ before)
      × (write_all http_1_1_switching_protocols c ≡ (err e, c'))
      × (written c' ≡ after)

  -- What was written since: nothing, or the answer to a request for the upgrade, or what a connection
  -- that failed on this answer took of it.
  abbrev pub WritesAnswer : List ℕ → List ℕ → Type 0
  WritesAnswer before after =
      (after ≡ before)
      ⊎ (AskedUpgrade
          × ((after ≡ before ++ http_1_1_switching_protocols) ⊎ AnswerFails before after))

  -- A peer whose first 24 bytes are not the preface, and that the HTTP/1.1 parser refuses whatever
  -- follows them, panics the handshake; or the read behind these bytes failed, and the handshake gives its error.
  pub handshake_malformed :
      (c : Conn) (magic rest : List ℕ)
      → incoming c ≡ magic ++ rest
      → length magic ≡ 24
      → magic ≢ http_2_0_preface
      → ((more : List ℕ) → (e : ParseError) × (http.parse (magic ++ more) ≡ err e))
      → ((handshake http tcp c).0 ≡ panic)
        ⊎ ((e : IoError) × (c' : Conn) × (d : Conn) × (incoming c' ≡ rest)
            × (tcp.read 4074 c' ≡ (err e, d))
            × (handshake http tcp c ≡ (err e, d)))
  unfolding handshake after_first handshake_http2_prior_knowledge handshake_http_1_1_upgrade
      check_magic
  handshake_malformed c magic rest h sized other refused =
      let (c', q, i, w) = read_exact_enough c magic rest h in
      let q' : read_exact 24 c ≡ (ok magic, c') = rw sized at q in
      elim (Bool-cases (same_bytes magic http_2_0_preface)) [
        | inl e ↦ absurd (other (same_bytes→eq magic http_2_0_preface e))
        | inr e ↦ elim (read_cases c' 4074) [
          | inl (right, d, p, n, j, v) ↦
              let pad = zeros (4074 - length right) in
              let (x, bad) = refused (right ++ pad) in
              let bad' : http.parse (magic ++ right ++ pad) ≡ err x =
                ap http.parse (append_assoc magic right pad) ∙ bad in
              inl (rw (q', e, sized, p, bad') refl)
          | inr (x, d, p, v) ↦ inr (x, c', d, i, p, rw (q', e, sized, p) refl)
        ]
      ]

module _ (bits : Bitflags) (buf : BytesMut) (http : Httparse) (tcp : TcpStream) where
  open tcp use {Conn, incoming}

  -- A link whose peer opens with the preface of HTTP/2, then writes frames that the link reads, and
  -- then at most eight bytes more, sends exactly these frames on, in order, as the link receives them,
  -- and its read loop breaks; one round more than there are frames is enough.
  pub read_loop-preface :
      (fuel : ℕ) (fs : List Frame) (c : Conn) (tail : List ℕ)
      → All IsReadable fs
      → incoming c ≡ http_2_0_preface ++ stream_wire fs ++ tail
      → length tail < 9
      → length fs < fuel
      → (c' : Conn) × (read_loop bits buf http tcp fuel c
          ≡ (all_received received fs, (broken, c')))
  unfolding read_loop after_handshake
  read_loop-preface fuel fs c tail v h ht hf =
      let (c', e, i, w) = handshake-preface http tcp c (stream_wire fs ++ tail) h in
      let (d, q) = read_frames-stream_wire bits buf tcp fuel fs c' tail v i ht hf in (d, rw e q)
