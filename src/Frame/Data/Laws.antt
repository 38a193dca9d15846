-- ===== src/Frame/Data/Laws.antt =====
-- What `Data::load` makes of a payload, padded or not, and the flag that ends a stream.
use native.Mathlib.Decide.{ℕ_discrete, dec_le}
use h2l.Base.{
  ℕ, ◌*◌, ◌/◌, ◌%◌, ◌<◌, ◌≤◌, ◌≡◌, ◌≢◌, refl, ◌⊎◌, inl, inr, Bool, true, false, none, some, List,
  [], arith, length, get_or, ◌==◌, bit_and, bit_or, bit_xor, IsByte,
}
use h2l.Base.Tables.{same_below, same_below→eq}
use h2l.Base.Outcome.{ok, err}
use h2l.Crates.Bitflags.{Bitflags}
use h2l.Frame.Error.{invalid_stream_id, too_much_padding}
use h2l.Frame.Head.{Head}
use h2l.Frame.Data.{
  Data, end_stream, padded, all_flags, is_padded, is_end_stream, set_end_stream, check_padding,
  load_padding, load, head_of,
}

-- The flag PADDED, as bit 3.
pub padded_bit : (n : ℕ) → n < 256 → bit_and (bit_and n all_flags) padded ≡ n / 8 % 2 * 8
unfolding same_below
padded_bit n h =
    same_below→eq (λ n. bit_and (bit_and n all_flags) padded) (λ n. n / 8 % 2 * 8) 256 n h refl

-- The numbers and the padding of a DATA frame fit each other: no flag but those of DATA, and a
-- number of bytes of padding, if there is padding, that is the payload's first byte and less than
-- the payload's length.
abbrev pub IsLoadable : Data → Type 0
IsLoadable d =
    (d.stream_id.id ≢ 0)
    × IsByte d.flags
    × (bit_and d.flags all_flags ≡ d.flags)
    × (((d.flags / 8 % 2 ≡ 0) × (d.pad_len ≡ none))
        ⊎ ((d.flags / 8 % 2 ≡ 1)
            × (d.pad_len ≡ some (get_or d.payload 0 0))
            × IsByte (get_or d.payload 0 0)
            × (get_or d.payload 0 0 < length d.payload)))

module _ (bits : Bitflags) where
  open bits use {
    from_bits_truncate, intersects, insert, remove, from_bits_truncate_bits, intersects_bits,
    insert_bits, remove_bits,
  }

  padded_test :
      (n : ℕ) → n < 256 → is_padded bits (from_bits_truncate all_flags n) ≡ (n / 8 % 2 == 1)
  padded_test n h = simp (from_bits_truncate_bits, intersects_bits, padded_bit n h) (ground arith)

  abbrev pub Loaded : Head → List ℕ → Data → Type 0
  Loaded head payload d =
      (d.stream_id ≡ head.stream_id)
      × (d.payload ≡ payload)
      × (d.flags ≡ bit_and head.flags all_flags)

  -- `load` never panics, and its answer is one of these: the stream 0 is refused; a padded payload
  -- that is empty, or no longer than its first byte says, is refused; a padded payload is loaded
  -- whole, padding included, beside the number of bytes of padding, which is less than its length;
  -- and a payload without padding is loaded whole. The flags that a DATA frame has not are dropped.
  pub load_data_cases :
      (head : Head) (payload : List ℕ)
      → IsByte head.flags
      → IsByte (get_or payload 0 0)
      → ((load bits head payload ≡ err invalid_stream_id) × (head.stream_id.id ≡ 0))
        ⊎ ((load bits head payload ≡ err too_much_padding)
            × (head.stream_id.id ≢ 0)
            × (head.flags / 8 % 2 ≡ 1)
            × ((payload ≡ []) ⊎ (length payload ≤ get_or payload 0 0)))
        ⊎ ((d : Data) × (load bits head payload ≡ ok d)
            × (head.stream_id.id ≢ 0)
            × (head.flags / 8 % 2 ≡ 1)
            × (d.pad_len ≡ some (get_or payload 0 0))
            × (get_or payload 0 0 < length payload)
            × Loaded head payload d)
        ⊎ ((d : Data) × (load bits head payload ≡ ok d)
            × (head.stream_id.id ≢ 0)
            × (head.flags / 8 % 2 ≡ 0)
            × (d.pad_len ≡ none)
            × Loaded head payload d)
  unfolding load load_padding check_padding
  load_data_cases head payload hf hp =
      let flags = from_bits_truncate all_flags head.flags in
      elim (ℕ_discrete head.stream_id.id 0) [
        | yes zero_id ↦ inl (ground arith, zero_id)
        | no stream ↦ elim (ℕ_discrete (head.flags / 8 % 2) 1) [
          | yes bit ↦ elim (dec_le (length payload) (get_or payload 0 0)) [
            | yes long ↦
                inr (inl (ground (arith, padded_test head.flags hf), stream, bit, inr long))
            | no fits ↦ inr (
                inr (
                  inl (
                    record {
                      stream_id = head.stream_id;
                      payload = payload;
                      flags = flags;
                      pad_len = some (get_or payload 0 0);
                    },
                    ground (arith, padded_test head.flags hf),
                    stream,
                    bit,
                    refl,
                    omega arith,
                    (refl, refl, from_bits_truncate_bits all_flags head.flags),
                  )))
          ]
          | no bit ↦ inr (
              inr (
                inr (
                  record {
                    stream_id = head.stream_id;
                    payload = payload;
                    flags = flags;
                    pad_len = none;
                  },
                  ground (arith, padded_test head.flags hf),
                  stream,
                  omega arith,
                  refl,
                  (refl, refl, from_bits_truncate_bits all_flags head.flags),
                )))
        ]
      ]

  -- A DATA frame of which this holds is loaded, from its header and its payload, as it was.
  pub load-head_of : (d : Data) → IsLoadable d → load bits (head_of d) d.payload ≡ ok d
  unfolding load load_padding check_padding
  load-head_of d (stream, byte, same, inl (bit, none_pad)) =
      ground (arith, padded_test d.flags byte, from_bits_truncate_bits all_flags d.flags)
  load-head_of d (stream, byte, same, inr (bit, pad, first, fits)) =
      ground (arith, padded_test d.flags byte, from_bits_truncate_bits all_flags d.flags)

  insert_end : (n : ℕ) → n < 256 → bit_and (bit_or n end_stream) end_stream ≡ 1
  unfolding same_below
  insert_end n h =
      same_below→eq (λ n. bit_and (bit_or n end_stream) end_stream) (λ _. 1) 256 n h refl

  remove_end : (n : ℕ) → n < 256 → bit_and (bit_xor n (bit_and n end_stream)) end_stream ≡ 0
  unfolding same_below
  remove_end n h =
      same_below→eq (λ n. bit_and (bit_xor n (bit_and n end_stream)) end_stream) (λ _. 0) 256 n h
        refl

  insert_padded : (n : ℕ) → n < 256 → bit_and (bit_or n end_stream) padded ≡ bit_and n padded
  unfolding same_below
  insert_padded n h =
      same_below→eq (λ n. bit_and (bit_or n end_stream) padded) (λ n. bit_and n padded) 256 n h refl

  remove_padded :
      (n : ℕ) → n < 256 → bit_and (bit_xor n (bit_and n end_stream)) padded ≡ bit_and n padded
  unfolding same_below
  remove_padded n h =
      same_below→eq (λ n. bit_and (bit_xor n (bit_and n end_stream)) padded) (λ n. bit_and n padded)
        256 n h refl

  -- `set_end_stream` sets the flag END_STREAM to the value given, and leaves PADDED alone.
  pub is_end_stream-set_end_stream :
      (d : Data) (val : Bool)
      → IsByte d.flags
      → (is_end_stream bits (set_end_stream bits d val) ≡ val)
        × (is_padded bits (set_end_stream bits d val).flags ≡ is_padded bits d.flags)
  unfolding is_end_stream set_end_stream
  is_end_stream-set_end_stream d true h = (
    simp (intersects_bits, insert_bits, insert_end d.flags h),
    simp (intersects_bits, insert_bits, insert_padded d.flags h),
  )
  is_end_stream-set_end_stream d false h = (
    simp (intersects_bits, remove_bits, remove_end d.flags h),
    simp (intersects_bits, remove_bits, remove_padded d.flags h),
  )
