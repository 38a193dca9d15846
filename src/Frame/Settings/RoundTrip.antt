-- ===== src/Frame/Settings/RoundTrip.antt =====
-- A SETTINGS frame that was encoded is loaded again as it was.
use h2l.Base.{◌⊎◌, inl, inr, ℕ, ◌+◌, ◌≤◌, ◌≡◌, refl, ◌∙◌, List, ◌++◌, arith, length, All}
use h2l.Base.Outcome.{ok}
use h2l.Crates.Bitflags.{Bitflags}
use h2l.Crates.BytesMut.{BytesMut, usize_max}
use h2l.Frame.Head.{Head, Kind, kind_byte}
use h2l.Frame.Head
use h2l.Frame.Head.Wire
use h2l.Frame.Settings.{
  Settings, default, ack, ack_flag, head_of, accept, encode, load, load_payload,
}
use h2l.Frame.Settings.Wire.{
  items, payload_wire, length-payload_wire, IsSetting, payload_len-wire, payload_len-le,
  encode-wire,
}
use h2l.Frame.Settings.Load.{IsValid, ack_test, accept_all, load_loop-wire, load-load_loop}

-- The loop of `load`, on the settings of a frame, gives the frame.
accept_all-items : (s : Settings) → IsValid s → accept_all default (items s) ≡ ok s
unfolding accept_all accept items
accept_all-items s v = ground arith

module _ (bits : Bitflags) where
  load-payload_wire :
      (s : Settings)
      → IsValid s
      → All IsSetting (items s)
      → load bits (head_of s) (payload_wire (items s)) ≡ ok s
  load-payload_wire s v h =
      load-load_loop bits (head_of s) (payload_wire (items s)) refl refl (ground arith)
        (omega (arith, length-payload_wire (items s)))
      ∙ load_loop-wire default (items s) h
      ∙ accept_all-items s v

  load-ack : load bits (head_of ack) (payload_wire (items ack)) ≡ ok ack
  unfolding load load_payload payload_wire items kind_byte
  load-ack = ground (arith, ack_test bits ack_flag)

  -- The payload of an ACK, or of settings within their ranges, is loaded as the frame.
  pub load_sent :
      (s : Settings)
      → (s ≡ ack) ⊎ IsValid s
      → All IsSetting (items s)
      → load bits (head_of s) (payload_wire (items s)) ≡ ok s
  load_sent s (inr v) h = load-payload_wire s v h
  load_sent s (inl e) h = rw e load-ack

module _ (bits : Bitflags) (buf : BytesMut) where
  open buf use {Buffer, bytes, get_uint}

  -- Settings within their ranges, in 32 bits each, are encoded as a header and a payload, where nine
  -- bytes have room; the header is parsed again with the length of the payload, and `load` gives the
  -- settings back.
  pub load-encode_settings :
      (s : Settings) (dst : Buffer)
      → IsValid s
      → All IsSetting (items s)
      → length (bytes dst) + 9 ≤ usize_max
      → (payload : List ℕ) × Wire.Appends buf dst
          (encode buf s dst)
          (Wire.wire (head_of s) (length payload) ++ payload)
        × (Head.parse (Wire.wire (head_of s) (length payload) ++ payload) ≡ ok (head_of s))
        × (get_uint (Wire.wire (head_of s) (length payload) ++ payload) 3 ≡ length payload)
        × (load bits (head_of s) payload ≡ ok s)
  load-encode_settings s dst v h room =
      let payload = payload_wire (items s) in
      let sized = payload_len-wire s in
      (
        payload,
        rw (← sized) (encode-wire buf s dst (ground arith) h room),
        Wire.parse-wire (head_of s) (length payload) payload
            (record { flags_byte = ground arith; stream_31 = omega arith }) (λ e. cc e),
        Wire.get_uint-wire buf (head_of s) (length payload) payload
            (omega (arith, payload_len-le s, sized)),
        load-payload_wire bits s v h,
      )
