-- ===== src/Client/Opening.antt =====
-- What a client does when it opens a connection.
use h2l.Base.{
  ℕ, ◌<◌, ◌≤◌, ◌≡◌, ◌≢◌, refl, ap, ◌∙◌, ◌⊎◌, inl, inr, false, List, ◌++◌, append_assoc, arith,
  length, le→leb,
}
use h2l.Base.Outcome.{ok, err}
use h2l.Consts.{http_2_0_preface, http_2_0_settings}
use h2l.Crates.Bitflags.{Bitflags}
use h2l.Crates.BytesMut.{BytesMut}
use h2l.Crates.TcpStream.{TcpStream}
use h2l.Frame.Error.{IoError}
use h2l.Frame.Head.{Head, Kind, kind_eq, kind_byte}
use h2l.Frame.Head.Wire.{wire, IsHead, parse-wire, get_uint-wire}
use h2l.Frame.Settings
use h2l.Frame.Settings.{Settings}
use h2l.Frame.Any.{settings}
use h2l.Frame.Any.Wire.{frame_wire, IsSendable}
use h2l.Link.Handshake.{zeros}
use h2l.Client.Handshake.{unknown_protocol, io, read_settings, handshake}

kind_eq-settings : (k : Kind) → k ≢ Kind.settings → kind_eq k Kind.settings ≡ false
unfolding kind_byte
kind_eq-settings Kind.settings h = absurd (h refl)
kind_eq-settings Kind.data_kind h = refl
kind_eq-settings _ h = refl

module _ (bits : Bitflags) (buf : BytesMut) (tcp : TcpStream) where
  open buf use {get_uint}
  open tcp use {Conn, incoming, written, read_exact, read_exact_enough, write_all, write_all_cases}

  -- The handshake ends by an error of the connection.
  abbrev pub OpeningFails : Conn → Type 0
  OpeningFails c = (e : IoError) × (c' : Conn) × (handshake bits buf tcp c ≡ (err (io e), c'))

  -- After the opening, an answer that starts with a header.
  handshake-header :
      (c : Conn) (head : Head) (n : ℕ) (rest : List ℕ)
      → IsHead head
      → head.kind ≢ Kind.bin_code
      → n < 0x100_0000
      → incoming c ≡ wire head n ++ rest
      → ((c' : Conn) × (handshake bits buf tcp c ≡ read_settings bits buf tcp head n c')
          × (incoming c' ≡ rest)
          × (written c' ≡ written c ++ http_2_0_preface ++ http_2_0_settings))
        ⊎ OpeningFails c
  unfolding handshake
  handshake-header c head n rest v k hn h = elim (write_all_cases c http_2_0_preface) [
    | inr (e, c1, q) ↦ inr (e, c1, rw q refl)
    | inl (c1, q, w, i) ↦ elim (write_all_cases c1 http_2_0_settings) [
      | inr (e, c2, q') ↦ inr (e, c2, rw (q, q') refl)
      | inl (c2, q', w', i') ↦
          let (c3, q'', i'', w'') = read_exact_enough c2 (wire head n) rest (i' ∙ i ∙ h) in
          inl (
            c3,
            rw
                (
                  q,
                  q',
                  q'',
                  parse-wire head n (zeros 1015) v k,
                  get_uint-wire buf head n (zeros 1015) hn,
                )
                refl,
            i'',
            w'' ∙ w' ∙ ap (λ (l : List ℕ). l ++ http_2_0_settings) w,
          )
    ]
  ]

  -- A peer that answers with SETTINGS which are valid or an ACK: the client has written the preface
  -- and its own settings, and the handshake gives the settings of the peer, of which it took exactly
  -- the bytes; or the connection failed, and with it
  -- the handshake.
  pub handshake-settings :
      (c : Conn) (s : Settings) (rest : List ℕ)
      → IsSendable (settings s)
      → ((s ≡ Settings.ack) ⊎ Settings.Load.IsValid s)
      → incoming c ≡ frame_wire (settings s) ++ rest
      → ((c' : Conn) × (handshake bits buf tcp c ≡ (ok s, c'))
          × (incoming c' ≡ rest)
          × (written c' ≡ written c ++ http_2_0_preface ++ http_2_0_settings))
        ⊎ OpeningFails c
  unfolding read_settings frame_wire kind_byte
  handshake-settings c s rest (flags, sized) v h =
      let payload = Settings.Wire.payload_wire (Settings.Wire.items s) in
      let short : length payload ≤ 36 =
        omega (arith, Settings.Wire.payload_len-wire s, Settings.Wire.payload_len-le s) in
      elim (handshake-header c (Settings.head_of s) (length payload) (payload ++ rest)
        (record { flags_byte = flags; stream_31 = omega arith }) (λ e. cc e) (omega arith)
        (h ∙ append_assoc (wire (Settings.head_of s) (length payload)) payload rest)) [
          | inr f ↦ inr f
          | inl (c1, q, i, w) ↦
              let (c2, q', i', w') = read_exact_enough c1 payload rest i in
              inl (
                c2,
                q
                    ∙ rw
                        (
                          le→leb (length payload) 1024 (omega arith),
                          q',
                          Settings.RoundTrip.load_sent bits s v sized,
                        )
                        refl,
                i',
                w' ∙ w,
              )
        ]

  -- A peer that answers with another frame than SETTINGS: the handshake is refused; or the connection
  -- failed, and with it the handshake.
  pub handshake_other :
      (c : Conn) (head : Head) (n : ℕ) (rest : List ℕ)
      → IsHead head
      → head.kind ≢ Kind.bin_code
      → head.kind ≢ Kind.settings
      → n < 0x100_0000
      → incoming c ≡ wire head n ++ rest
      → ((c' : Conn) × (handshake bits buf tcp c ≡ (err unknown_protocol, c'))
          × (incoming c' ≡ rest)
          × (written c' ≡ written c ++ http_2_0_preface ++ http_2_0_settings))
        ⊎ OpeningFails c
  unfolding read_settings
  handshake_other c head n rest v k other hn h = elim (handshake-header c head n rest v k hn h) [
    | inr f ↦ inr f
    | inl (c1, q, i, w) ↦ inl (c1, q ∙ rw (kind_eq-settings head.kind other) refl, i, w)
  ]
