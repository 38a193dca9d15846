-- ===== src/Frame/Settings/Load.antt =====
-- What `Settings::load` accepts, and what it makes of a payload.
use h2l.Base.{
  ◌⊎◌, inl, inr, Bool-cases, Within, leb, ltb, ◌&&◌, get_or, ℕ, ◌*◌, ◌/◌, ◌%◌, ◌^◌, ◌≤◌, ◌≡◌, ◌≢◌,
  refl, ap, sym, Option, none, some, List, [], ◌∷◌, ◌++◌, arith, length, length-eq-zero, List-cases,
  All, bit_or, ◌==◌,
}
use mathlib.Core.Path.{fun_ext, subst}
use native.Mathlib.Decide.{ℕ_discrete}
use h2l.Base.Bits.{bit_or_high_low, bit_and-one}
use h2l.Base.Word.{unpack_octets_4, unpack_octets_4_two, from_be_bytes-be_bytes_4}
use h2l.Base.Outcome.{Outcome, ok, err, ◌>>=◌}
use h2l.Crates.Bitflags.{Bitflags}
use h2l.Frame.Error.{
  Error, invalid_stream_id, invalid_payload_length, invalid_payload_ack_settings,
  invalid_setting_value,
}
use h2l.Frame.Head.{Head, Kind, kind_byte}
use h2l.Frame.Settings.{
  Setting, header_table_size, enable_push, max_concurrent_streams, initial_window_size,
  max_frame_size, max_header_list_size, setting_id, setting_value, from_id, load_setting, Settings,
  default, ack, ack_flag, accept, chunks, load_loop, load_payload, load, default_max_frame_size,
  max_initial_window_size, max_max_frame_size,
}
use h2l.Frame.Settings.Wire.{IsSetting, setting_wire, payload_wire, setting_id-lt}

-- The loop of `load` on settings that were read already.
unfoldable pub accept_all : Settings → List Setting → Outcome Error Settings
accept_all s [] = ok s
accept_all s (st ∷ rest) = accept s (some st) >>= λ s'. accept_all s' rest

from_id-setting_id : (st : Setting) → from_id (setting_id st) (setting_value st) ≡ some st
unfolding from_id setting_id setting_value
from_id-setting_id (header_table_size v) = refl
from_id-setting_id _ = refl

-- A setting that was encoded is read back.
load_setting-wire : (st : Setting) → IsSetting st → load_setting (setting_wire st) ≡ ok (some st)
unfolding load_setting setting_wire
load_setting-wire st h = ground (
  arith,
  from_id-setting_id st,
  setting_id-lt st,
  bit_or_high_low 8 (setting_id st / 0x100) (setting_id st % 0x100),
  unpack_octets_4_two (setting_id st / 0x100) (setting_id st % 0x100)
      (setting_value st / 0x100_0000) (setting_value st / 0x1_0000 % 0x100)
      (setting_value st / 0x100 % 0x100) (setting_value st % 0x100) [],
  from_be_bytes-be_bytes_4 (setting_value st),
)

chunks-wire :
    (st : Setting) (rest : List ℕ)
    → chunks (setting_wire st ++ rest) ≡ setting_wire st ∷ chunks rest
unfolding chunks setting_wire
chunks-wire st rest = refl

-- On an encoded list of settings the loop does what it does on the settings.
pub load_loop-wire :
    (s : Settings) (xs : List Setting)
    → All IsSetting xs
    → load_loop s (chunks (payload_wire xs)) ≡ accept_all s xs
unfolding load_loop payload_wire accept_all
load_loop-wire s [] h = unfold chunks in refl
load_loop-wire s (x ∷ xs) h =
    rw (chunks-wire x (payload_wire xs), load_loop, load_setting-wire x h.0)
      (ap (λ (k : Settings → Outcome Error Settings). accept s (some x) >>= k)
        (fun_ext λ s'. load_loop-wire s' xs h.1))

-- The ranges that the values of a SETTINGS frame have.
pub record IsValid (s : Settings) : Type 0 where
  pub flags_clear : s.flags ≡ 0
  pub push_bit : Within (λ v. v ≤ 1) s.push
  pub window_31 : Within (λ v. v ≤ max_initial_window_size) s.window
  pub frame_size_24 :
      Within (λ v. (default_max_frame_size ≤ v) × (v ≤ max_max_frame_size)) s.frame_size

default-IsValid : IsValid default
default-IsValid = record { flags_clear = refl; push_bit = tt; window_31 = tt; frame_size_24 = tt }

abbrev pub Accepted : Outcome Error Settings → Type 0
Accepted run = (run ≡ err invalid_setting_value) ⊎ ((t : Settings) × (run ≡ ok t) × IsValid t)

-- A round of the loop, and the loop: a value out of range, or settings within the ranges.
accept_cases : (s : Settings) (o : Option Setting) → IsValid s → Accepted (accept s o)
unfolding accept
accept_cases s none v = inr (s, refl, v)
accept_cases s (some (header_table_size val)) v = inr (_, refl, ground arith)
accept_cases s (some (enable_push val)) v = elim (Bool-cases (leb val 1)) [
  | inl e ↦ inr (record s { push = some val }, rw e, ground arith)
  | inr e ↦ inl (rw e)
]
accept_cases s (some (max_concurrent_streams val)) v = inr (_, refl, ground arith)
accept_cases s (some (initial_window_size val)) v =
    elim (Bool-cases (ltb max_initial_window_size val)) [
      | inl e ↦ inl (rw e)
      | inr e ↦ inr (record s { window = some val }, rw e, ground arith)
    ]
accept_cases s (some (max_frame_size val)) v =
    elim (Bool-cases (leb default_max_frame_size val && leb val max_max_frame_size)) [
      | inl e ↦ inr (record s { frame_size = some val }, rw e, ground arith)
      | inr e ↦ inl (rw e)
    ]
accept_cases s (some (max_header_list_size val)) v = inr (_, refl, ground arith)

load_setting_full :
    (raw : List ℕ) → length raw ≡ 6 → (o : Option Setting) × (load_setting raw ≡ ok o)
unfolding load_setting
load_setting_full raw h = (
  from_id (bit_or (get_or raw 0 0 * 2 ^ 8 % 2 ^ 16) (get_or raw 1 0)) (unpack_octets_4 raw 2),
  ground arith,
)

pub load_loop_cases :
    (raws : List (List ℕ)) (s : Settings)
    → All (λ raw. length raw ≡ 6) raws
    → IsValid s
    → Accepted (load_loop s raws)
unfolding load_loop
load_loop_cases [] s h v = inr (s, refl, v)
load_loop_cases (raw ∷ rest) s h v =
    let (o, found) = load_setting_full raw h.0 in
    elim (accept_cases s o v) [
      | inl e ↦ inl (rw (found, e))
      | inr (t, e, w) ↦ rw (found, e) (load_loop_cases rest t h.1 w)
    ]

chunks_full :
    (payload : List ℕ) → length payload % 6 ≡ 0 → All (λ raw. length raw ≡ 6) (chunks payload)
unfolding chunks
chunks_full [] h = tt
chunks_full (a ∷ []) h = absurd (omega arith)
chunks_full (a ∷ b ∷ []) h = absurd (omega arith)
chunks_full (a ∷ b ∷ c ∷ []) h = absurd (omega arith)
chunks_full (a ∷ b ∷ c ∷ d ∷ []) h = absurd (omega arith)
chunks_full (a ∷ b ∷ c ∷ d ∷ e ∷ []) h = absurd (omega arith)
chunks_full (a ∷ b ∷ c ∷ d ∷ e ∷ f ∷ rest) h = (refl, chunks_full rest (omega arith))

module _ (bits : Bitflags) where
  open bits use {from_bits_truncate, intersects, from_bits_truncate_bits, intersects_bits}

  pub ack_test :
      (flags : ℕ) → intersects (from_bits_truncate ack_flag flags) ack_flag ≡ (flags % 2 == 1)
  ack_test flags = simp (from_bits_truncate_bits, intersects_bits, bit_and-one) (ground arith)

  -- Where `load` gets to its loop.
  pub load-load_loop :
      (head : Head) (payload : List ℕ)
      → head.kind ≡ Kind.settings
      → head.stream_id.id ≡ 0
      → head.flags % 2 ≡ 0
      → length payload % 6 ≡ 0
      → load bits head payload ≡ load_loop default (chunks payload)
  unfolding load load_payload kind_byte
  load-load_loop head payload k z even sixes =
      ground (arith, ack_test head.flags, intersects_bits 0 1)

  -- On a header of its kind `load` never panics, and its answer is one of these: another stream
  -- than 0 is refused; an ACK gives the ACK frame if it is empty, and is refused if not; without
  -- ACK a length that six does not divide is refused; and any other payload is refused for a value
  -- out of range, or gives settings whose values are in range.
  pub load_settings_cases :
      (head : Head) (payload : List ℕ)
      → head.kind ≡ Kind.settings
      → ((load bits head payload ≡ err invalid_stream_id) × (head.stream_id.id ≢ 0))
        ⊎ ((load bits head payload ≡ ok ack)
            × (head.stream_id.id ≡ 0)
            × (head.flags % 2 ≡ 1)
            × (payload ≡ []))
        ⊎ ((load bits head payload ≡ err invalid_payload_length)
            × (head.stream_id.id ≡ 0)
            × (head.flags % 2 ≡ 1)
            × (payload ≢ []))
        ⊎ ((load bits head payload ≡ err invalid_payload_ack_settings)
            × (head.stream_id.id ≡ 0)
            × (head.flags % 2 ≡ 0)
            × (length payload % 6 ≢ 0))
        ⊎ ((head.stream_id.id ≡ 0)
            × (head.flags % 2 ≡ 0)
            × (length payload % 6 ≡ 0)
            × Accepted (load bits head payload))
  unfolding load load_payload kind_byte
  load_settings_cases head payload k = elim (ℕ_discrete head.stream_id.id 0) [
    | no other ↦ inl (ground arith, other)
    | yes zero_id ↦ elim (ℕ_discrete (head.flags % 2) 1) [
      | yes odd ↦ elim (List-cases payload) [
        | inl empty ↦ inr (inl (ground (arith, ack_test head.flags), zero_id, odd, empty))
        | inr full ↦ inr (
            inr (
              inl
                (ground (arith, ack_test head.flags, length-eq-zero payload), zero_id, odd, full)))
      ]
      | no even ↦ elim (ℕ_discrete (length payload % 6) 0) [
        | yes sixes ↦ inr (
            inr (
              inr (
                inr (
                  zero_id,
                  omega arith,
                  sixes,
                  subst Accepted (sym (load-load_loop head payload k zero_id (omega arith) sixes)) (
                      load_loop_cases (chunks payload) default (chunks_full payload sixes)
                        default-IsValid),
                ))))
        | no rest ↦
            inr (inr (inr (inl (ground (arith, ack_test head.flags), zero_id, omega arith, rest))))
      ]
    ]
  ]
