-- ===== src/Frame/Settings/Last.antt =====
-- `Settings::load` against RFC 7540, section 6.5: each parameter has the last value that is given for
-- it, and parameters that are not known are ignored.
use h2l.Base.{
  ℕ, ◌*◌, ◌+◌, ◌%◌, ◌≡◌, refl, ap, ◌∙◌, inl, inr, Option, none, some, List, [], ◌∷◌, arith, length,
  Bool, true, false, ◌&&◌, ◌==◌, leb, if◌then◌else◌, Bool-cases, IsBytes,
}
use h2l.Base.Bits.{bit_or_high_low}
use h2l.Base.Word.{from_be_bytes, unpack_octets_4_two}
use h2l.Base.Outcome.{Outcome, ok, err}
use h2l.Crates.Bitflags.{Bitflags}
use h2l.Frame.Error.{Error, invalid_setting_value}
use h2l.Frame.Head.{Head, Kind}
use h2l.Frame.Settings.{Settings, default, from_id, load_setting, accept, chunks, load_loop, load}
use h2l.Frame.Settings.Load.{load-load_loop}

-- The parameters of a payload, as pairs of an identifier and a value.
abbrev pub parameters : List ℕ → List (ℕ × ℕ)
parameters (a ∷ b ∷ c ∷ d ∷ e ∷ f ∷ rest) = (a * 0x100 + b, from_be_bytes c d e f) ∷ parameters rest
parameters _ = []

-- SETTINGS_ENABLE_PUSH, SETTINGS_INITIAL_WINDOW_SIZE and SETTINGS_MAX_FRAME_SIZE have ranges.
abbrev pub in_range : ℕ × ℕ → Bool
in_range (id, val) =
    if id == 2
    then leb val 1
    else if id == 4
    then leb val 0x7fff_ffff
    else if id == 5
    then leb 0x4000 val && leb val 0xff_ffff
    else true

abbrev pub all_in_range : List (ℕ × ℕ) → Bool
all_in_range [] = true
all_in_range (p ∷ rest) = in_range p && all_in_range rest

-- The last value, or the one before.
abbrev pub last_or : Option ℕ → ℕ → List (ℕ × ℕ) → Option ℕ
last_or before key [] = before
last_or before key ((id, val) ∷ rest) = last_or (if id == key then some val else before) key rest

-- The settings after these parameters.
abbrev pub given : Settings → List (ℕ × ℕ) → Settings
given s ps = record {
  flags = s.flags;
  header_table = last_or s.header_table 1 ps;
  push = last_or s.push 2 ps;
  concurrent = last_or s.concurrent 3 ps;
  window = last_or s.window 4 ps;
  frame_size = last_or s.frame_size 5 ps;
  header_list = last_or s.header_list 6 ps;
}

abbrev pub reference : Settings → List (ℕ × ℕ) → Outcome Error Settings
reference s ps = if all_in_range ps then ok (given s ps) else err invalid_setting_value

accept-from_id :
    (s : Settings) (id val : ℕ)
    → accept s (from_id id val)
      ≡ (if in_range (id, val) then ok (given s ((id, val) ∷ [])) else err invalid_setting_value)
unfolding accept from_id
accept-from_id s id val = ground arith

load_setting-parameter :
    (a b c d e f : ℕ)
    → IsBytes (a ∷ b ∷ c ∷ d ∷ e ∷ f ∷ [])
    → load_setting (a ∷ b ∷ c ∷ d ∷ e ∷ f ∷ [])
      ≡ ok (from_id (a * 0x100 + b) (from_be_bytes c d e f))
unfolding load_setting
load_setting-parameter a b c d e f (ha, (hb, (hc, (hd, (he, (hf, h)))))) =
    ground (arith, bit_or_high_low 8 a b, unpack_octets_4_two a b c d e f [])

-- The loop goes on from the settings so far.
load_loop-reference :
    (payload : List ℕ) (s : Settings)
    → IsBytes payload
    → length payload % 6 ≡ 0
    → load_loop s (chunks payload) ≡ reference s (parameters payload)
unfolding load_loop chunks
load_loop-reference [] s v h = refl
load_loop-reference (a ∷ []) s v h = absurd (omega arith)
load_loop-reference (a ∷ b ∷ []) s v h = absurd (omega arith)
load_loop-reference (a ∷ b ∷ c ∷ []) s v h = absurd (omega arith)
load_loop-reference (a ∷ b ∷ c ∷ d ∷ []) s v h = absurd (omega arith)
load_loop-reference (a ∷ b ∷ c ∷ d ∷ e ∷ []) s v h = absurd (omega arith)
load_loop-reference (a ∷ b ∷ c ∷ d ∷ e ∷ f ∷ rest) s (ha, (hb, (hc, (hd, (he, (hf, v)))))) h =
    let id = a * 0x100 + b in
    let val = from_be_bytes c d e f in
    let read = load_setting-parameter a b c d e f (ha, (hb, (hc, (hd, (he, (hf, tt)))))) in
    let again = load_loop-reference rest (given s ((id, val) ∷ [])) v (omega arith) in
    elim (Bool-cases (in_range (id, val))) [
      | inl e ↦ rw (read, accept-from_id s id val, e) again
      | inr e ↦ rw (read, accept-from_id s id val, e) refl
    ]

-- The last value that is given for a parameter, if any is.
abbrev pub last_value : ℕ → List (ℕ × ℕ) → Option ℕ
last_value key [] = none
last_value key ((id, val) ∷ rest) = elim (last_value key rest) [
  | some later ↦ some later
  | none ↦ if id == key then some val else none
]

abbrev or_before : Option ℕ → Option ℕ → Option ℕ
or_before (some v) before = some v
or_before none before = before

last_or-last_value :
    (before : Option ℕ) (key : ℕ) (ps : List (ℕ × ℕ))
    → last_or before key ps ≡ or_before (last_value key ps) before
last_or-last_value before key [] = refl
last_or-last_value before key ((id, val) ∷ rest) =
    last_or-last_value (if id == key then some val else before) key rest
    ∙ chosen (id == key) (last_value key rest)
  where
    chosen :
        (b : Bool) (later : Option ℕ)
        → or_before later (if b then some val else before)
          ≡ or_before (elim later [ some v ↦ some v | none ↦ if b then some val else none ]) before
    chosen b (some v) = refl
    chosen true none = refl
    chosen false none = refl

-- The settings in which each parameter has the last value that is given for it.
abbrev pub settings_given : List (ℕ × ℕ) → Settings
settings_given ps = record {
  flags = 0;
  header_table = last_value 1 ps;
  push = last_value 2 ps;
  concurrent = last_value 3 ps;
  window = last_value 4 ps;
  frame_size = last_value 5 ps;
  header_list = last_value 6 ps;
}

last_or-none : (key : ℕ) (ps : List (ℕ × ℕ)) → last_or none key ps ≡ last_value key ps
last_or-none key ps = last_or-last_value none key ps ∙ same (last_value key ps)
  where
    same : (o : Option ℕ) → or_before o none ≡ o
    same none = refl
    same (some v) = refl

given-settings_given : (ps : List (ℕ × ℕ)) → given default ps ≡ settings_given ps
given-settings_given ps = simp (last_or-none)

module _ (bits : Bitflags) where
  -- On the payload of a SETTINGS frame of stream 0 without ACK, of a length that six divides, `load`
  -- is what RFC 7540 says: a value out of its range anywhere is an error; and else each parameter has
  -- the last value that is given for it, or none, where parameters that are not known are ignored.
  pub load-settings_given :
      (head : Head) (payload : List ℕ)
      → head.kind ≡ Kind.settings
      → head.stream_id.id ≡ 0
      → head.flags % 2 ≡ 0
      → length payload % 6 ≡ 0
      → IsBytes payload
      → load bits head payload ≡ (
          if all_in_range (parameters payload)
          then ok (settings_given (parameters payload))
          else err invalid_setting_value)
  load-settings_given head payload k z even sixes v =
      load-load_loop bits head payload k z even sixes
      ∙ load_loop-reference payload default v sixes
      ∙ ap
          (λ (t : Settings).
            if all_in_range (parameters payload) then ok t else err invalid_setting_value)
          (given-settings_given (parameters payload))
