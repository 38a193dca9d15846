-- ===== src/Link/Handshake.antt =====
-- link.rs: how a link opens a connection, by HTTP/2 prior knowledge or by an upgrade from HTTP/1.1,
-- and the whole read loop behind it.
use h2l.Base.{
  ℕ, zero, suc, ◌-◌, Bool, true, false, ◌&&◌, if◌then◌else◌, Option, none, some, List, [], ◌∷◌,
  ◌++◌, length, same_bytes,
}
use h2l.Base.Outcome.{Outcome, ok, err, panic}
use h2l.Base.Exec.{Exec, pure, raise, lift, map_err, ◌>>=◌, ◌>>◌}
use h2l.Consts.{http_2_0_preface, http_1_1_switching_protocols}
use h2l.Crates.Bitflags.{Bitflags}
use h2l.Crates.BytesMut.{BytesMut}
use h2l.Crates.Httparse.{Httparse, Request, ParseError}
use h2l.Crates.TcpStream.{TcpStream}
use h2l.Frame.Error.{IoError, unsupported}
use h2l.Frame.Any.{Frame}
use h2l.Link.Read.{End, panicked, read_frames}

-- `[0; n]`.
abbrev pub zeros : ℕ → List ℕ
zeros zero = []
zeros (suc n) = 0 ∷ zeros n

-- `"Upgrade"` and `b"h2c"`.
abbrev pub upgrade_name : List ℕ
upgrade_name = b'U' ∷ b'p' ∷ b'g' ∷ b'r' ∷ b'a' ∷ b'd' ∷ b'e' ∷ []

abbrev pub h2c_value : List ℕ
h2c_value = b'h' ∷ b'2' ∷ b'c' ∷ []

-- The loop over the headers, up to the one that asks for the upgrade.
unfoldable pub asks_upgrade : List (List ℕ × List ℕ) → Bool
asks_upgrade [] = false
asks_upgrade ((name, value) ∷ rest) =
    let later = asks_upgrade rest in
    if same_bytes name upgrade_name && same_bytes value h2c_value then true else later

-- `unwrap` on what the parser gives.
abbrev pub unwrapped : Outcome ParseError Request → Outcome IoError Request
unwrapped (ok req) = ok req
unwrapped _ = panic

module _ (http : Httparse) (tcp : TcpStream) where
  open tcp use {Conn, read, read_exact, write_all}

  unfoldable pub answer_upgrade : Request → Exec Conn IoError (Unit {0})
  answer_upgrade req =
      if req.is_complete && asks_upgrade req.headers
      then write_all http_1_1_switching_protocols
      else raise unsupported

  -- The buffer has 4098 bytes; what was fetched before stands at its front.
  unfoldable pub handshake_http_1_1_upgrade : List ℕ → Exec Conn IoError (Unit {0})
  handshake_http_1_1_upgrade fetched = do
    right ← read (4098 - length fetched)
    let buffer = fetched ++ right ++ zeros (4098 - length fetched - length right)
    req ← lift (unwrapped (http.parse buffer))
    answer_upgrade req

  unfoldable pub check_magic : List ℕ → Exec Conn (IoError × Option (List ℕ)) (Unit {0})
  check_magic magic =
      if same_bytes magic http_2_0_preface then pure tt else raise (unsupported, some magic)

  unfoldable pub handshake_http2_prior_knowledge : Exec Conn (IoError × Option (List ℕ)) (Unit {0})
  handshake_http2_prior_knowledge = map_err (λ e. (e, none)) (read_exact 24) >>= check_magic

  -- The `if let` on the first attempt: any other result than bytes that are no preface is left at
  -- that.
  unfoldable pub after_first :
      Outcome (IoError × Option (List ℕ)) (Unit {0}) × Conn → Outcome IoError (Unit {0}) × Conn
  after_first (err (e, some fetched), c) =
      (handshake_http_1_1_upgrade fetched >> map_err (λ p. p.0) handshake_http2_prior_knowledge) c
  after_first (panic, c) = (panic, c)
  after_first (_, c) = (ok tt, c)

  unfoldable pub handshake : Exec Conn IoError (Unit {0})
  handshake c = after_first (handshake_http2_prior_knowledge c)

module _ (bits : Bitflags) (buf : BytesMut) (http : Httparse) (tcp : TcpStream) where
  open tcp use {Conn}

  -- A handshake that fails is only logged.
  unfoldable pub after_handshake :
      (Conn → List Frame × (End × Conn))
      → Outcome IoError (Unit {0}) × Conn
      → List Frame × (End × Conn)
  after_handshake rest (panic, c) = ([], (panicked, c))
  after_handshake rest (_, c) = rest c

  -- `read_loop`, with the frames that it sends on, up to the report at its end.
  unfoldable pub read_loop : ℕ → Conn → List Frame × (End × Conn)
  read_loop fuel c = after_handshake (read_frames bits buf tcp fuel) (handshake http tcp c)
