-- ===== src/Frame/Any/Wire.antt =====
-- The bytes of each frame, and that `Frame::write_to` writes them.
use h2l.Base.{
  ℕ, ◌+◌, ◌<◌, ◌≤◌, ◌≡◌, refl, sym, ap, ◌∙◌, ◌⊎◌, inl, inr, List, [], ◌++◌, append_assoc,
  append-nil, arith, length, All, IsByte,
}
use h2l.Base.Outcome.{Outcome, ok, err}
use h2l.Base.Exec.{Exec, ◌>>◌}
use h2l.Crates.BytesMut.{BytesMut, usize_max}
use h2l.Crates.TcpStream.{TcpStream}
use h2l.Frame.Error.{IoError}
use h2l.Frame.Head.{Head}
use h2l.Frame.Head.Wire.{wire, IsHead, Appends, encode-wire}
use h2l.Frame.Data
use h2l.Frame.Headers
use h2l.Frame.Priority
use h2l.Frame.Reset
use h2l.Frame.Settings
use h2l.Frame.GoAway
use h2l.Frame.WindowUpdate
use h2l.Frame.BinCode
use h2l.Frame.Any.{
  Frame, data_frame, headers, priority, reset, settings, go_away, window_update, continuation,
  bin_code, unknown, write_encoded, write_head, write_payload, write_to,
}

abbrev framed : Head → List ℕ → List ℕ
framed head payload = wire head (length payload) ++ payload

-- A frame as RFC 7540 lays it out.
unfoldable pub frame_wire : Frame → List ℕ
frame_wire (data_frame d) = framed (Data.head_of d) d.payload
frame_wire (headers h) = framed (Headers.head_of h) h.raw_data
frame_wire (priority p) = framed (Priority.head_of p) (Priority.RoundTrip.payload_of p.dependency)
frame_wire (reset r) = framed (Reset.head_of r) (Reset.RoundTrip.payload_of r)
frame_wire (settings s) =
    framed (Settings.head_of s) (Settings.Wire.payload_wire (Settings.Wire.items s))
frame_wire (go_away g) = framed (GoAway.head_of g) (GoAway.RoundTrip.payload_of g)
frame_wire (window_update w) = framed (WindowUpdate.head_of w) (WindowUpdate.RoundTrip.payload_of w)
frame_wire (continuation c) = framed (Headers.continuation_head c) c.raw_data
frame_wire (bin_code b) = framed (BinCode.head_of b) b.payload
frame_wire unknown = []

abbrev IsFramed : Head → List ℕ → Type 0
IsFramed head payload = IsHead head × (length payload < 0x100_0000)

-- The numbers of the frame fit their fields, and its payload the 24 bits of the length.
abbrev pub IsSendable : Frame → Type 0
IsSendable (data_frame d) = IsFramed (Data.head_of d) d.payload
IsSendable (headers h) = IsFramed (Headers.head_of h) h.raw_data
IsSendable (priority p) = Priority.RoundTrip.IsValid p
IsSendable (reset r) = Reset.RoundTrip.IsValid r
IsSendable (settings s) = IsByte s.flags × All Settings.Wire.IsSetting (Settings.Wire.items s)
IsSendable (go_away g) = GoAway.RoundTrip.IsValid g
IsSendable (window_update w) = WindowUpdate.RoundTrip.IsValid w
IsSendable (continuation c) = IsFramed (Headers.continuation_head c) c.raw_data
IsSendable (bin_code b) = IsFramed (BinCode.head_of b) b.payload
IsSendable unknown = Unit

module _ (tcp : TcpStream) where
  open tcp use {Conn, written, incoming, write_all, write_all_cases}

  -- The run writes these bytes and reads none, or it fails with an error of the connection.
  abbrev pub Sends : Exec Conn IoError (Unit {0}) → Conn → List ℕ → Type 0
  Sends run c ws =
      ((c' : Conn) × (run c ≡ (ok tt, c'))
        × (written c' ≡ written c ++ ws)
        × (incoming c' ≡ incoming c))
      ⊎ ((e : IoError) × (c' : Conn) × (run c ≡ (err e, c')))

  Sends-bind :
      (m k : Exec Conn IoError (Unit {0})) (c : Conn) (xs ys : List ℕ)
      → Sends m c xs
      → ((c' : Conn) → Sends k c' ys)
      → Sends (m >> k) c (xs ++ ys)
  Sends-bind m k c xs ys (inr (e, c', q)) next = inr (e, c', rw q)
  Sends-bind m k c xs ys (inl (c', q, w, i)) next = elim (next c') [
    | inr (e, c'', q') ↦ inr (e, c'', rw q q')
    | inl (c'', q', w', i') ↦ inl (c'', rw q q', rw (w', w, append_assoc), i' ∙ i)
  ]

module _ (buf : BytesMut) (tcp : TcpStream) where
  open buf use {Buffer, with_capacity, bytes, bytes-with_capacity}
  open tcp use {Conn, write_all_cases}

  write_encoded-Sends :
      (n : ℕ) (encode : Buffer → Outcome IoError Buffer) (ws : List ℕ) (c : Conn)
      → Appends buf (with_capacity n) (encode (with_capacity n)) ws
      → Sends tcp (write_encoded buf tcp n encode) c ws
  unfolding write_encoded
  write_encoded-Sends n encode ws c (out, e, bs) =
      rw e (rw (bs ∙ ap (λ (t : List ℕ). t ++ ws) (bytes-with_capacity n)) (write_all_cases c ws))

  room : (n : ℕ) → length (bytes (with_capacity n)) + 9 ≤ usize_max
  room n = rw (bytes-with_capacity n) (omega arith)

  write_payload-Sends :
      (head : Head) (payload : List ℕ) (c : Conn)
      → IsFramed head payload
      → Sends tcp (write_payload buf tcp head payload) c (framed head payload)
  unfolding write_payload write_head
  write_payload-Sends head payload c v =
      Sends-bind tcp (write_head buf tcp head (length payload)) (tcp.write_all payload) c
        (wire head (length payload)) payload
        (write_encoded-Sends 64 _ _ c
          (encode-wire buf head (length payload) (with_capacity 64) v.0 v.1 (room 64)))
        λ c'. write_all_cases c' payload

  -- Every frame whose numbers fit is written as its layout, one frame behind what was written
  -- before, with nothing read; or the connection fails. `write_to` never panics on it.
  pub write_to-frame_wire :
      (f : Frame) (c : Conn) → IsSendable f → Sends tcp (write_to buf tcp f) c (frame_wire f)
  unfolding write_to frame_wire
  write_to-frame_wire (data_frame d) c v = write_payload-Sends (Data.head_of d) d.payload c v
  write_to-frame_wire (headers h) c v = write_payload-Sends (Headers.head_of h) h.raw_data c v
  write_to-frame_wire (priority p) c v =
      write_encoded-Sends 64 (Priority.encode buf p) _ c
        (Priority.RoundTrip.encode-wire buf p (with_capacity 64) v (room 64))
  write_to-frame_wire (reset r) c v =
      write_encoded-Sends 64 (Reset.encode buf r) _ c
        (Reset.RoundTrip.encode-wire buf r (with_capacity 64) v (room 64))
  write_to-frame_wire (settings s) c v = write_encoded-Sends 256 (Settings.encode buf s) _ c (
      rw (← Settings.Wire.payload_len-wire s)
        (Settings.Wire.encode-wire buf s (with_capacity 256) v.0 v.1 (room 256)))
  write_to-frame_wire (go_away g) c v =
      write_encoded-Sends 64 (GoAway.encode buf g) _ c
        (GoAway.RoundTrip.encode-wire buf g (with_capacity 64) v (room 64))
  write_to-frame_wire (window_update w) c v =
      write_encoded-Sends 64 (WindowUpdate.encode buf w) _ c
        (WindowUpdate.RoundTrip.encode-wire buf w (with_capacity 64) v (room 64))
  write_to-frame_wire (continuation k) c v =
      write_payload-Sends (Headers.continuation_head k) k.raw_data c v
  write_to-frame_wire (bin_code b) c v = write_payload-Sends (BinCode.head_of b) b.payload c v
  write_to-frame_wire unknown c v = inl (c, refl, sym (append-nil (tcp.written c)), refl)
