-- ===== src/Client/Termination.antt =====
-- The read loop of a client ends on every stream.
use h2l.Base.{ℕ, ◌<◌, ◌≢◌, List, length, leb}
use h2l.Base.Outcome.{ok, assert, map}
use h2l.Base.Exec.{lift, ◌>>=◌}
use h2l.Crates.Bitflags.{Bitflags}
use h2l.Crates.BytesMut.{BytesMut}
use h2l.Crates.TcpStream.{TcpStream}
use h2l.Frame.Head.{Head, Kind}
use h2l.Frame.Data
use h2l.Frame.Settings
use h2l.Frame.GoAway
use h2l.Frame.WindowUpdate
use h2l.Frame.Any.{data_frame, settings, go_away, window_update, unknown, with_headers}
use h2l.Link.Read.{more, read}
use h2l.Link.Ends.{Takes, load-Takes, lift-Takes, >>=-Takes, frame_read-Takes, read_rounds-ne-more}
use h2l.Client.Read.{
  discard_unknown_frame, read_frame_head, read_data_frame, read_headers_frame, read_settings_frame,
  read_go_away_frame, read_window_update_frame, read_payload, read_frame, read_frames,
}

module _ (bits : Bitflags) (buf : BytesMut) (tcp : TcpStream) where
  open tcp use {Conn, incoming}

  read_payload-Takes :
      (k : Kind) (head : Head) (n : ℕ) → Takes bits buf tcp 0 (read_payload bits buf tcp k head n)
  unfolding read_payload discard_unknown_frame read_data_frame read_headers_frame
      read_settings_frame read_go_away_frame read_window_update_frame
  read_payload-Takes Kind.data_kind head n =
      load-Takes bits buf tcp n (λ p. map data_frame (Data.load bits head p))
  read_payload-Takes Kind.headers head n =
      load-Takes bits buf tcp n (λ p. ok (with_headers head.stream_id p))
  read_payload-Takes Kind.settings head n =
      let load = λ (p : List ℕ). map settings (Settings.load bits head p) in
      >>=-Takes bits buf tcp 0 0 (lift (assert (leb n 256)))
        (λ _. read bits buf tcp n >>= λ p. lift (load p))
        (lift-Takes bits buf tcp (assert (leb n 256))) (λ _. load-Takes bits buf tcp n load)
  read_payload-Takes Kind.go_away head n =
      load-Takes bits buf tcp n (λ p. map go_away (GoAway.load p))
  read_payload-Takes Kind.window_update head n =
      load-Takes bits buf tcp 4 (λ p. map window_update (WindowUpdate.load head p))
  read_payload-Takes _ head n = load-Takes bits buf tcp n (λ p. ok unknown)

  -- On every stream, whatever it delivers, the read loop of a client ends by an error or a panic: fuel
  -- beyond the number of bytes still to come does not run out.
  pub read_frames_end :
      (fuel : ℕ) (c : Conn)
      → length (incoming c) < fuel
      → (read_frames bits buf tcp fuel c).1.0 ≢ more
  unfolding read_frames read_frame read_frame_head
  read_frames_end fuel c h =
      read_rounds-ne-more bits buf tcp (read_frame bits buf tcp) fuel c
        (frame_read-Takes bits buf tcp (read_payload bits buf tcp) read_payload-Takes) h
