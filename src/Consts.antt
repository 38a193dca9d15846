-- ===== src/Consts.antt =====
-- consts.rs: the bytes that a connection opens with.
use h2l.Base.{ℕ, List, [], ◌∷◌}

-- `"HTTP/1.1 101 Switching Protocols\r\nConnection: Upgrade\r\nUpgrade: h2c\r\n\r\n"`
abbrev pub http_1_1_switching_protocols : List ℕ
http_1_1_switching_protocols =
    b'H' ∷ b'T' ∷ b'T' ∷ b'P' ∷ b'/' ∷ b'1' ∷ b'.' ∷ b'1' ∷ b' ' ∷ b'1' ∷ b'0' ∷ b'1' ∷ b' ' ∷ b'S'
    ∷ b'w' ∷ b'i' ∷ b't' ∷ b'c' ∷ b'h' ∷ b'i' ∷ b'n' ∷ b'g' ∷ b' ' ∷ b'P' ∷ b'r' ∷ b'o' ∷ b't'
    ∷ b'o' ∷ b'c' ∷ b'o' ∷ b'l' ∷ b's' ∷ 0x0d ∷ 0x0a ∷ b'C' ∷ b'o' ∷ b'n' ∷ b'n' ∷ b'e' ∷ b'c'
    ∷ b't' ∷ b'i' ∷ b'o' ∷ b'n' ∷ b':' ∷ b' ' ∷ b'U' ∷ b'p' ∷ b'g' ∷ b'r' ∷ b'a' ∷ b'd' ∷ b'e'
    ∷ 0x0d ∷ 0x0a ∷ b'U' ∷ b'p' ∷ b'g' ∷ b'r' ∷ b'a' ∷ b'd' ∷ b'e' ∷ b':' ∷ b' ' ∷ b'h' ∷ b'2'
    ∷ b'c' ∷ 0x0d ∷ 0x0a ∷ 0x0d ∷ 0x0a ∷ []

-- `"PRI * HTTP/2.0\r\n\r\nSM\r\n\r\n"`
abbrev pub http_2_0_preface : List ℕ
http_2_0_preface =
    b'P' ∷ b'R' ∷ b'I' ∷ b' ' ∷ b'*' ∷ b' ' ∷ b'H' ∷ b'T' ∷ b'T' ∷ b'P' ∷ b'/' ∷ b'2' ∷ b'.' ∷ b'0'
    ∷ 0x0d ∷ 0x0a ∷ 0x0d ∷ 0x0a ∷ b'S' ∷ b'M' ∷ 0x0d ∷ 0x0a ∷ 0x0d ∷ 0x0a ∷ []

abbrev pub http_2_0_settings : List ℕ
http_2_0_settings =
    0x00 ∷ 0x00 ∷ 0x12 ∷ 0x04 ∷ 0x00 ∷ 0x00 ∷ 0x00 ∷ 0x00 ∷ 0x00 ∷ 0x00 ∷ 0x03 ∷ 0x00 ∷ 0x00 ∷ 0x00
    ∷ 0x64 ∷ 0x00 ∷ 0x04 ∷ 0x40 ∷ 0x00 ∷ 0x00 ∷ 0x00 ∷ 0x00 ∷ 0x02 ∷ 0x00 ∷ 0x00 ∷ 0x00 ∷ 0x00 ∷ []
