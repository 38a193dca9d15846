-- ===== src/Frame/Settings/Wire.antt =====
-- What the encoder of a SETTINGS frame writes: the fields that are set, in one fixed order.
use mathlib.Core.List.{foldl}
use h2l.Base.{
  ℕ, ◌+◌, ◌*◌, ◌<◌, ◌≤◌, ◌≡◌, refl, ◌∙◌, Option, none, some, List, [], ◌∷◌, ◌++◌, append_assoc,
  append-nil, arith, length, length-append, All, IsU32, IsByte, sym,
}
use h2l.Base.Word.{be_bytes_2, be_bytes_4}
use h2l.Base.Outcome.{ok}
use h2l.Crates.BytesMut.{BytesMut, usize_max}
use h2l.Frame.Head.Wire.{Appends, Appends-bind}
use h2l.Frame.Head.Wire as Head
use h2l.Frame.Settings.{
  Setting, header_table_size, enable_push, max_concurrent_streams, initial_window_size,
  max_frame_size, max_header_list_size, setting_id, setting_value, Settings, visit, for_each,
  payload_len, head_of, encode_setting, encode,
}

abbrev pub present : (ℕ → Setting) → Option ℕ → List Setting
present setting none = []
present setting (some v) = setting v ∷ []

-- The settings that `for_each` visits, in order.
unfoldable pub items : Settings → List Setting
items s =
    present header_table_size s.header_table
    ++ (present enable_push s.push
        ++ (present max_concurrent_streams s.concurrent
            ++ (present initial_window_size s.window
                ++ (present max_frame_size s.frame_size
                    ++ present max_header_list_size s.header_list))))

unfoldable pub setting_wire : Setting → List ℕ
setting_wire st = be_bytes_2 (setting_id st) ++ be_bytes_4 (setting_value st)

unfoldable pub payload_wire : List Setting → List ℕ
payload_wire [] = []
payload_wire (st ∷ rest) = setting_wire st ++ payload_wire rest

module _ {ℓ} {S : Type ℓ} (f : S → Setting → S) where
  foldl-append : (xs ys : List Setting) (s : S) → foldl f s (xs ++ ys) ≡ foldl f (foldl f s xs) ys
  foldl-append [] ys s = refl
  foldl-append (x ∷ xs) ys s = foldl-append xs ys (f s x)

  visit-present :
      (setting : ℕ → Setting) (o : Option ℕ) (s : S)
      → visit f setting o s ≡ foldl f s (present setting o)
  visit-present setting none s = refl
  visit-present setting (some v) s = refl

  -- `for_each` runs the closure over `items`.
  for_each-items : (s : Settings) (start : S) → for_each f s start ≡ foldl f start (items s)
  unfolding for_each items
  for_each-items s start = simp (visit-present, foldl-append)

-- The payload counts six bytes a setting.
count_items : (xs : List Setting) (n : ℕ) → foldl (λ len _. len + 6) n xs ≡ n + 6 * length xs
count_items [] n = omega arith
count_items (x ∷ xs) n = omega (arith, count_items xs (n + 6))

pub length-payload_wire : (xs : List Setting) → length (payload_wire xs) ≡ 6 * length xs
unfolding payload_wire setting_wire
length-payload_wire [] = refl
length-payload_wire (x ∷ xs) = omega (arith, length-payload_wire xs)

pub payload_len-wire : (s : Settings) → payload_len s ≡ length (payload_wire (items s))
unfolding payload_len
payload_len-wire s = omega (
  arith,
  for_each-items (λ len _. len + 6) s 0,
  count_items (items s) 0,
  length-payload_wire (items s),
)

length-present : (c : ℕ → Setting) (o : Option ℕ) → length (present c o) ≤ 1
length-present c none = omega arith
length-present c (some v) = omega arith

pub length-items : (s : Settings) → length (items s) ≤ 6
unfolding items
length-items s = simp length-append (omega (arith, length-present))

pub payload_len-le : (s : Settings) → payload_len s ≤ 36
payload_len-le s = omega (arith, payload_len-wire s, length-payload_wire (items s), length-items s)

-- Values are `u32`s.
abbrev pub IsSetting : Setting → Type 0
IsSetting st = IsU32 (setting_value st)

pub setting_id-lt : (st : Setting) → setting_id st < 7
unfolding setting_id
setting_id-lt (header_table_size v) = omega arith
setting_id-lt _ = omega arith

module _ (buf : BytesMut) where
  open buf use {Buffer, bytes, put_u16, bytes-put_u16, bytes-put_u32}

  encode_setting-wire :
      (dst : Buffer) (st : Setting)
      → IsSetting st
      → bytes (encode_setting buf dst st) ≡ bytes dst ++ setting_wire st
  unfolding encode_setting setting_wire
  encode_setting-wire dst st h = simp (
    bytes-put_u32 (put_u16 dst (setting_id st)) (setting_value st) h,
    bytes-put_u16 dst (setting_id st) (omega (arith, setting_id-lt st)),
    append_assoc,
  )

  encode_settings-wire :
      (xs : List Setting) (dst : Buffer)
      → All IsSetting xs
      → bytes (foldl (encode_setting buf) dst xs) ≡ bytes dst ++ payload_wire xs
  unfolding payload_wire
  encode_settings-wire [] dst h = sym (append-nil (bytes dst))
  encode_settings-wire (x ∷ xs) dst h =
      encode_settings-wire xs (encode_setting buf dst x) h.1
      ∙ rw (encode_setting-wire dst x h.0, append_assoc)

  -- The frame header, and then every field that is set.
  pub encode-wire :
      (s : Settings) (dst : Buffer)
      → IsByte s.flags
      → All IsSetting (items s)
      → length (bytes dst) + 9 ≤ usize_max
      → Appends buf dst
          (encode buf s dst)
          (Head.wire (head_of s) (payload_len s) ++ payload_wire (items s))
  unfolding encode
  encode-wire s dst hf hs room =
      Appends-bind buf dst _ (λ mid. ok (for_each (encode_setting buf) s mid)) _ _
        (Head.encode-wire buf (head_of s) (payload_len s) dst
          (record { flags_byte = hf; stream_31 = omega arith }) (omega (arith, payload_len-le s))
          room)
        λ mid e. (
          for_each (encode_setting buf) s mid,
          refl,
          rw for_each-items (encode_settings-wire (items s) mid hs),
        )
