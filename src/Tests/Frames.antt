-- ===== src/Tests/Frames.antt =====
-- The theorems on frames, at concrete frames, and runs of the loaders and encoders.
use h2l.Base.{
  ℕ, ◌+◌, ◌/◌, ◌%◌, ◌<◌, ◌≤◌, ◌≡◌, ◌≢◌, refl, ◌⊎◌, true, none, some, List, [], ◌∷◌, ◌++◌, length,
  arith,
}
use h2l.Base.Word.{unpack_octets_4}
use h2l.Base.Outcome.{ok, err}
use h2l.Crates.Bitflags.{plain_bits}
use h2l.Frame.Error.{
  invalid_payload_length, invalid_payload_ack_settings, invalid_setting_value, invalid_stream_id,
  too_much_padding,
}
use h2l.Frame.StreamId.{
  StreamId, stream_id_overflow, is_client_initiated, is_server_initiated, next_id,
}
use h2l.Frame.StreamId.Laws.{next_id_lem}
use h2l.Frame.Head
use h2l.Frame.Head.{Head, Kind}
use h2l.Frame.Head.Wire.{wire, parse-wire}
use h2l.Frame.Settings
use h2l.Frame.Settings.{Settings}
use h2l.Frame.Settings.Load.{load_settings_cases, Accepted}
use h2l.Frame.Data
use h2l.Frame.Data.{Data}
use h2l.Frame.Data.Laws.{load_data_cases, Loaded}
use h2l.Frame.Priority
use h2l.Frame.Priority.{Priority, StreamDependency}
use h2l.Frame.Priority.Cases.{Loads, load_priority_cases}
use h2l.Frame.WindowUpdate.{WindowUpdate}

abbrev stream : ℕ → StreamId
stream n = record { id = n }

next_id_lem_example :
    ((next_id (stream 0x7fff_fffe) ≡ err stream_id_overflow) × (0x7fff_ffff < 0x7fff_fffe + 2))
    ⊎ ((t : StreamId) × (next_id (stream 0x7fff_fffe) ≡ ok t)
        × (0x7fff_fffe < t.id)
        × (t.id ≤ 0x7fff_ffff)
        × (is_client_initiated t ≡ is_client_initiated (stream 0x7fff_fffe))
        × (is_server_initiated t ≡ is_server_initiated (stream 0x7fff_fffe)))
next_id_lem_example = next_id_lem (stream 0x7fff_fffe) (omega arith) (omega arith)

abbrev ping_head : Head
ping_head = record { kind = Kind.ping; flags = 1; stream_id = stream 0 }

parse-wire_example : Head.parse (wire ping_head 8 ++ (7 ∷ [])) ≡ ok ping_head
parse-wire_example =
    parse-wire ping_head 8 (7 ∷ []) (record { flags_byte = omega arith; stream_31 = omega arith })
      (λ e. cc e)

abbrev some_settings : Settings
some_settings = record {
  flags = 0;
  header_table = none;
  push = some 1;
  concurrent = some 100;
  window = none;
  frame_size = some 16_384;
  header_list = none;
}

-- ENABLE_PUSH with the value 2.
abbrev bad_push : List ℕ
bad_push = 0 ∷ 2 ∷ 0 ∷ 0 ∷ 0 ∷ 2 ∷ []

load_settings_cases_example :
    let run = Settings.load plain_bits (Settings.head_of Settings.default) bad_push in
    ((run ≡ err invalid_stream_id) × (◌≢◌ {A = ℕ} 0 0))
    ⊎ ((run ≡ ok Settings.ack) × (◌≡◌ {A = ℕ} 0 0) × (0 % 2 ≡ 1) × (bad_push ≡ []))
    ⊎ ((run ≡ err invalid_payload_length) × (◌≡◌ {A = ℕ} 0 0) × (0 % 2 ≡ 1) × (bad_push ≢ []))
    ⊎ ((run ≡ err invalid_payload_ack_settings)
        × (◌≡◌ {A = ℕ} 0 0)
        × (0 % 2 ≡ 0)
        × (length bad_push % 6 ≢ 0))
    ⊎ ((◌≡◌ {A = ℕ} 0 0) × (0 % 2 ≡ 0) × (length bad_push % 6 ≡ 0) × Accepted run)
load_settings_cases_example =
    load_settings_cases plain_bits (Settings.head_of Settings.default) bad_push refl

refused_push :
    Settings.load plain_bits (Settings.head_of Settings.default) bad_push
    ≡ err invalid_setting_value
unfolding Settings.load Settings.load_payload Settings.load_loop Settings.load_setting
    Settings.from_id Settings.accept Settings.chunks Head.kind_byte unpack_octets_4
refused_push = refl

abbrev data_head : Head
data_head = record { kind = Kind.data_kind; flags = 0x8; stream_id = stream 3 }

-- One byte of data, and two bytes of padding.
abbrev padded_payload : List ℕ
padded_payload = 2 ∷ 65 ∷ 0 ∷ 0 ∷ []

load_data_cases_example :
    let run = Data.load plain_bits data_head padded_payload in
    ((run ≡ err invalid_stream_id) × (◌≡◌ {A = ℕ} 3 0))
    ⊎ ((run ≡ err too_much_padding)
        × (◌≢◌ {A = ℕ} 3 0)
        × (0x8 / 8 % 2 ≡ 1)
        × ((padded_payload ≡ []) ⊎ (length padded_payload ≤ 2)))
    ⊎ ((d : Data) × (run ≡ ok d)
        × (◌≢◌ {A = ℕ} 3 0)
        × (0x8 / 8 % 2 ≡ 1)
        × (d.pad_len ≡ some 2)
        × (2 < length padded_payload)
        × Loaded plain_bits data_head padded_payload d)
    ⊎ ((d : Data) × (run ≡ ok d)
        × (◌≢◌ {A = ℕ} 3 0)
        × (0x8 / 8 % 2 ≡ 0)
        × (d.pad_len ≡ none)
        × Loaded plain_bits data_head padded_payload d)
load_data_cases_example =
    load_data_cases plain_bits data_head padded_payload (omega arith) (omega arith)

-- The padding is still in the payload.
padding_kept :
    Data.load plain_bits data_head padded_payload
    ≡ ok (record { stream_id = stream 3; payload = padded_payload; flags = 0x8; pad_len = some 2 })
unfolding Data.load Data.load_padding Data.check_padding
padding_kept = refl

abbrev some_dependency : StreamDependency
some_dependency = record { dependency_id = stream 0x7fff_ffff; weight = 255; is_exclusive = true }

abbrev some_priority : Priority
some_priority = record { stream_id = stream 3; dependency = some_dependency }

abbrev on_three : List ℕ
on_three = 0 ∷ 0 ∷ 0 ∷ 3 ∷ 16 ∷ []

load_priority_cases_example :
    ((length on_three ≢ 5)
      × (Priority.load (Priority.head_of some_priority) on_three ≡ err invalid_payload_length))
    ⊎ Loads (Priority.head_of some_priority) on_three
load_priority_cases_example =
    load_priority_cases (Priority.head_of some_priority) on_three
      (omega arith, (omega arith, (omega arith, (omega arith, (omega arith, tt)))))

abbrev some_update : WindowUpdate
some_update = record { stream_id = stream 0; size_increment = 65_535 }
