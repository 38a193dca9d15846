-- ===== src/Tests/RoundTrips.antt =====
-- The theorems on frames that are written and loaded again, and on what a SETTINGS frame gives.
use h2l.Base.{ℕ, ◌≡◌, refl, if◌then◌else◌, inr, some, List, [], ◌∷◌, arith}
use h2l.Base.Outcome.{ok, err}
use h2l.Crates.Bitflags.{plain_bits}
use h2l.Frame.Error.{invalid_setting_value}
use h2l.Frame.Head.{Head, Kind}
use h2l.Frame.Ping
use h2l.Frame.Ping.{Ping}
use h2l.Frame.Settings
use h2l.Frame.Settings.Last.{parameters, all_in_range, settings_given, load-settings_given}
use h2l.Frame.Data.{Data}
use h2l.Frame.Any.{data_frame, write_to}
use h2l.Frame.Any.Wire.{Sends}
use h2l.Frame.Any.RoundTrip.{LoadsBack, load-write_to}
use h2l.Tests.Memory.{vec_buffer, pipe, delivering}

-- MAX_CONCURRENT_STREAMS twice, and a parameter that is not known between.
abbrev given_twice : List ℕ
given_twice = 0 ∷ 3 ∷ 0 ∷ 0 ∷ 0 ∷ 1 ∷ 0 ∷ 9 ∷ 0 ∷ 0 ∷ 0 ∷ 1 ∷ 0 ∷ 3 ∷ 0 ∷ 0 ∷ 0 ∷ 100 ∷ []

load-settings_given_example :
    Settings.load plain_bits (Settings.head_of Settings.default) given_twice ≡ (
      if all_in_range (parameters given_twice)
      then ok (settings_given (parameters given_twice))
      else err invalid_setting_value)
load-settings_given_example =
    load-settings_given plain_bits (Settings.head_of Settings.default) given_twice refl refl refl
      refl (ground arith)

the_last_value : (settings_given (parameters given_twice)).concurrent ≡ some 100
the_last_value = refl

-- One byte of data, and two bytes of padding.
abbrev padded_data : Data
padded_data = record {
  stream_id = record { id = 3 };
  payload = 2 ∷ 65 ∷ 0 ∷ 0 ∷ [];
  flags = 0x9;
  pad_len = some 2;
}

load-write_to_example :
    (ws : List ℕ) × Sends pipe
      (write_to vec_buffer pipe (data_frame padded_data))
      (delivering [])
      ws
    × LoadsBack plain_bits vec_buffer (data_frame padded_data) ws
load-write_to_example =
    load-write_to plain_bits vec_buffer pipe (data_frame padded_data) (delivering []) (
      (record { flags_byte = omega arith; stream_31 = omega arith }, omega arith),
      (omega arith, omega arith, refl, inr (refl, refl, omega arith, omega arith)),
    )

-- The answer to a PING.
abbrev some_pong : Ping
some_pong = Ping.pong Ping.user_payload

-- On stream 1.
abbrev stray_head : Head
stray_head = record { kind = Kind.ping; flags = 0; stream_id = record { id = 1 } }
