-- ===== src/Tests/Openings.antt =====
-- The theorems on how connections open, at connections in memory.
use h2l.Base.{◌≡◌, refl, ◌⊎◌, inl, [], ◌∷◌, ◌++◌, arith}
use h2l.Base.Outcome.{ok, err, panic}
use h2l.Consts.{http_2_0_preface, http_2_0_settings}
use h2l.Crates.Bitflags.{plain_bits}
use h2l.Crates.Httparse.{Httparse, version}
use h2l.Frame.Error.{IoError}
use h2l.Frame.Head.{Head, Kind}
use h2l.Frame.Settings
use h2l.Frame.Any.{settings}
use h2l.Frame.Any.Wire.{frame_wire}
use h2l.Link
use h2l.Link.Handshake.{zeros, read_loop}
use h2l.Link.Opening.{handshake_malformed}
use h2l.Client
use h2l.Client.Handshake.{unknown_protocol}
use h2l.Client.Opening.{OpeningFails, handshake-settings}
use h2l.Tests.Memory.{vec_buffer, pipe, Pipe, delivering}

-- A parser that refuses everything.
abbrev pub refusing : Httparse
refusing = record { parse = λ xs. err version }

handshake_malformed_example :
    ((Link.Handshake.handshake refusing pipe (delivering (zeros 24 ++ []))).0 ≡ panic)
    ⊎ ((e : IoError) × (c : Pipe) × (d : Pipe) × (c.incoming ≡ [])
        × (pipe.read 4074 c ≡ (err e, d))
        × (Link.Handshake.handshake refusing pipe (delivering (zeros 24 ++ [])) ≡ (err e, d)))
handshake_malformed_example =
    handshake_malformed refusing pipe (delivering (zeros 24 ++ [])) (zeros 24) [] refl refl
      (λ e. cc e) (λ rest. (version, refl))

handshake-settings_example :
    ((c : Pipe) × (Client.Handshake.handshake plain_bits vec_buffer pipe
          (delivering (frame_wire (settings Settings.ack) ++ (7 ∷ [])))
        ≡ (ok Settings.ack, c))
      × (c.incoming ≡ 7 ∷ [])
      × (c.written ≡ [] ++ http_2_0_preface ++ http_2_0_settings))
    ⊎ OpeningFails plain_bits vec_buffer pipe
        (delivering (frame_wire (settings Settings.ack) ++ (7 ∷ [])))
unfolding Settings.Wire.items
handshake-settings_example =
    handshake-settings plain_bits vec_buffer pipe
      (delivering (frame_wire (settings Settings.ack) ++ (7 ∷ []))) Settings.ack (7 ∷ [])
      (omega arith) (inl refl) refl

abbrev data_head : Head
data_head = record { kind = Kind.data_kind; flags = 0; stream_id = record { id = 1 } }
