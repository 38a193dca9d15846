-- ===== src/Frame/Settings.antt =====
-- frame/settings.rs: the SETTINGS frame.
pub mod Wire
pub mod Load
pub mod RoundTrip
pub mod Last
use h2l.Base.{
  ℕ, ◌+◌, ◌*◌, ◌%◌, ◌^◌, Bool, true, false, not, ◌&&◌, Option, none, some, List, [], ◌∷◌, bit_or,
  length, get_or, leb, ltb, ◌==◌, if◌then◌else◌,
}
use h2l.Base.Outcome.{Outcome, ok, err, assert, ◌>>=◌, ◌>>◌}
use h2l.Base.Word.{unpack_octets_4}
use h2l.Crates.Bitflags.{Bitflags}
use h2l.Crates.BytesMut.{BytesMut}
use h2l.Frame.Error.{
  Error, IoError, invalid_stream_id, invalid_payload_length, invalid_payload_ack_settings,
  invalid_setting_value,
}
use h2l.Frame.StreamId
use h2l.Frame.Head
use h2l.Frame.Head.{Head, Kind, kind_eq}

abbrev pub default_max_frame_size : ℕ
default_max_frame_size = 16_384

-- `(1 << 31) - 1` and `(1 << 24) - 1`.
abbrev pub max_initial_window_size : ℕ
max_initial_window_size = 0x7fff_ffff

abbrev pub max_max_frame_size : ℕ
max_max_frame_size = 0xff_ffff

pub data Setting : Type 0 where
  header_table_size enable_push max_concurrent_streams : ℕ → Setting
  initial_window_size max_frame_size max_header_list_size : ℕ → Setting

unfoldable pub from_id : ℕ → ℕ → Option Setting
from_id id val =
    if id == 1
    then some (header_table_size val)
    else if id == 2
    then some (enable_push val)
    else if id == 3
    then some (max_concurrent_streams val)
    else if id == 4
    then some (initial_window_size val)
    else if id == 5
    then some (max_frame_size val)
    else if id == 6
    then some (max_header_list_size val)
    else none

-- `Setting::load`; fewer than six bytes panic.
unfoldable pub load_setting : List ℕ → Outcome Error (Option Setting)
unfolding from_id
load_setting raw = do
  assert (leb 6 (length raw))
  let id = bit_or (get_or raw 0 0 * 2 ^ 8 % 2 ^ 16) (get_or raw 1 0)
  ok (from_id id (unpack_octets_4 raw 2))

-- The identifier that `Setting::encode` writes, and the value.
unfoldable pub setting_id : Setting → ℕ
setting_id (header_table_size v) = 1
setting_id (enable_push v) = 2
setting_id (max_concurrent_streams v) = 3
setting_id (initial_window_size v) = 4
setting_id (max_frame_size v) = 5
setting_id (max_header_list_size v) = 6

unfoldable pub setting_value : Setting → ℕ
setting_value (header_table_size v) = v
setting_value (enable_push v) = v
setting_value (max_concurrent_streams v) = v
setting_value (initial_window_size v) = v
setting_value (max_frame_size v) = v
setting_value (max_header_list_size v) = v

pub record Settings : Type 0 where
  pub flags : ℕ
  pub header_table : Option ℕ
  pub push : Option ℕ
  pub concurrent : Option ℕ
  pub window : Option ℕ
  pub frame_size : Option ℕ
  pub header_list : Option ℕ

-- `SettingsFlags::ACK`, which is all of its flags.
abbrev pub ack_flag : ℕ
ack_flag = 0x1

abbrev pub default : Settings
default = record {
  flags = 0;
  header_table = none;
  push = none;
  concurrent = none;
  window = none;
  frame_size = none;
  header_list = none;
}

abbrev pub ack : Settings
ack = record default { flags = ack_flag }

unfoldable pub set_max_frame_size : Settings → Option ℕ → Outcome Error Settings
set_max_frame_size s none = ok (record s { frame_size = none })
set_max_frame_size s (some val) = do
  assert (leb default_max_frame_size val && leb val max_max_frame_size)
  ok (record s { frame_size = some val })

-- The setters that test nothing.
unfoldable pub set_initial_window_size : Settings → Option ℕ → Settings
set_initial_window_size s size = record s { window = size }

unfoldable pub set_max_concurrent_streams : Settings → Option ℕ → Settings
set_max_concurrent_streams s max = record s { concurrent = max }

unfoldable pub set_max_header_list_size : Settings → Option ℕ → Settings
set_max_header_list_size s size = record s { header_list = size }

unfoldable pub is_push_enabled : Settings → Option Bool
is_push_enabled s = elim s.push [ none ↦ none | some val ↦ some (not (val == 0)) ]

unfoldable pub set_enable_push : Settings → Bool → Settings
set_enable_push s enable = record s { push = some (if enable then 1 else 0) }

-- One round of the loop of `Settings::load`: the `match` on the setting that was read.
unfoldable pub accept : Settings → Option Setting → Outcome Error Settings
accept s none = ok s
accept s (some (header_table_size val)) = ok (record s { header_table = some val })
accept s (some (enable_push val)) =
    if leb val 1 then ok (record s { push = some val }) else err invalid_setting_value
accept s (some (max_concurrent_streams val)) = ok (record s { concurrent = some val })
accept s (some (initial_window_size val)) =
    if ltb max_initial_window_size val
    then err invalid_setting_value
    else ok (record s { window = some val })
accept s (some (max_frame_size val)) =
    if not (leb default_max_frame_size val && leb val max_max_frame_size)
    then err invalid_setting_value
    else ok (record s { frame_size = some val })
accept s (some (max_header_list_size val)) = ok (record s { header_list = some val })

-- `payload.chunks(6)`.
unfoldable pub chunks : List ℕ → List (List ℕ)
chunks [] = []
chunks (a ∷ b ∷ c ∷ d ∷ e ∷ f ∷ rest) = (a ∷ b ∷ c ∷ d ∷ e ∷ f ∷ []) ∷ chunks rest
chunks short = short ∷ []

unfoldable pub load_loop : Settings → List (List ℕ) → Outcome Error Settings
load_loop s [] = ok s
load_loop s (raw ∷ rest) = do setting ← load_setting raw; s' ← accept s setting; load_loop s' rest

abbrev pub is_empty : List ℕ → Bool
is_empty bytes = length bytes == 0

module _ (bits : Bitflags) where
  open bits use {from_bits_truncate, intersects}

  -- `SettingsFlags::is_ack`.
  abbrev pub is_ack : ℕ → Bool
  is_ack flags = intersects flags ack_flag

  -- `load` after the test of the stream: an ACK, and a list of settings.
  unfoldable pub load_payload : ℕ → List ℕ → Outcome Error Settings
  load_payload flags payload =
      if is_ack flags
      then (if not (is_empty payload) then err invalid_payload_length else ok ack)
      else if not (length payload % 6 == 0)
      then err invalid_payload_ack_settings
      else (assert (not (is_ack 0)) >> load_loop default (chunks payload))

  unfoldable pub load : Head → List ℕ → Outcome Error Settings
  load head payload = do
    assert (kind_eq head.kind Kind.settings)
    if not (StreamId.is_zero head.stream_id)
        then err invalid_stream_id
        else load_payload (from_bits_truncate ack_flag head.flags) payload

-- One `if let Some(v) = self.field { f(Setting(v)); }`.
abbrev pub visit {ℓ} : {S : Type ℓ} → (S → Setting → S) → (ℕ → Setting) → Option ℕ → S → S
visit f setting none s = s
visit f setting (some v) s = f s (setting v)

-- `for_each`, with what the closure captures as a state.
unfoldable pub for_each {ℓ} : {S : Type ℓ} → (S → Setting → S) → Settings → S → S
for_each f s start =
    let s1 = visit f header_table_size s.header_table start in
    let s2 = visit f enable_push s.push s1 in
    let s3 = visit f max_concurrent_streams s.concurrent s2 in
    let s4 = visit f initial_window_size s.window s3 in
    let s5 = visit f max_frame_size s.frame_size s4 in visit f max_header_list_size s.header_list s5

unfoldable pub payload_len : Settings → ℕ
payload_len s = for_each (λ len _. len + 6) s 0

-- The header that `encode` makes.
abbrev pub head_of : Settings → Head
head_of s = record { kind = Kind.settings; flags = s.flags; stream_id = StreamId.zero }

module _ (buf : BytesMut) where
  open buf use {Buffer, put_u16, put_u32}

  -- `Setting::encode`.
  unfoldable pub encode_setting : Buffer → Setting → Buffer
  encode_setting dst setting = put_u32 (put_u16 dst (setting_id setting)) (setting_value setting)

  unfoldable pub encode : Settings → Buffer → Outcome IoError Buffer
  encode s dst = do
    dst ← Head.encode buf (head_of s) (payload_len s) dst
    ok (for_each encode_setting s dst)
