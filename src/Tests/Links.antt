-- ===== src/Tests/Links.antt =====
-- The theorems on links and clients, at concrete connections.
use h2l.Base.{ℕ, none, some, true, List, [], ◌∷◌}
use h2l.Crates.Bitflags.{plain_bits}
use h2l.Frame.StreamId.{StreamId}
use h2l.Frame.Settings
use h2l.Frame.Any.{Frame, data_frame, settings, window_update}
use h2l.Link.Flags.{flags}
use h2l.Link.Race.{reported, load, store, report, read_step, write_step, Reach, start, later}
use h2l.Frame.Any.{priority}

abbrev stream : ℕ → StreamId
stream n = record { id = n }

-- An ACK, a DATA frame that ends its stream, and a WINDOW_UPDATE.
abbrev some_frames : List Frame
some_frames =
    settings Settings.ack
    ∷ data_frame (record { stream_id = stream 3; payload = 65 ∷ []; flags = 1; pad_len = none })
    ∷ window_update (record { stream_id = stream 0; size_increment = 9 })
    ∷ []

-- DATA with two bytes of padding, PRIORITY, and DATA that ends its stream.
abbrev padded_frames : List Frame
padded_frames =
    data_frame
      (record { stream_id = stream 3; payload = 2 ∷ 65 ∷ 0 ∷ 0 ∷ []; flags = 8; pad_len = some 2 })
    ∷ priority (record {
      stream_id = stream 5;
      dependency = record { dependency_id = stream 3; weight = 7; is_exclusive = true };
    })
    ∷ data_frame (record { stream_id = stream 3; payload = 66 ∷ []; flags = 1; pad_len = none })
    ∷ []

-- The reader ends, and then the writer.
abbrev pub in_turn : Reach plain_bits (record { raw = 3; reader = reported 1; writer = reported 3 })
unfolding flags
in_turn =
    later
      (later
        (later (later (later (later start (read_step load)) (read_step store)) (read_step report))
          (write_step load))
        (write_step store))
      (write_step report)

-- Where the two calls overlap the flag of the reader can be lost: READ_WRITE_CLOSED is not reported.
reader_lost : Reach plain_bits (record { raw = 2; reader = reported 2; writer = reported 2 })
unfolding flags
reader_lost =
    later
      (later
        (later (later (later (later start (read_step load)) (write_step load)) (read_step store))
          (write_step store))
        (read_step report))
      (write_step report)
