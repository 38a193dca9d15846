-- ===== src/Frame/Error.antt =====
-- frame/mod.rs: the errors of parsing a frame.
use Prim.Native.String.{String}
use h2l.Base.{ℕ}

-- `std::io::Error` by its kind; `other` is any kind that the program does not name.
pub data IoError : Type 0 where
  unexpected_eof unsupported : IoError
  other : ℕ → IoError

pub data Error : Type 0 where
  bad_frame_size too_much_padding invalid_setting_value invalid_window_update_value : Error
  invalid_payload_length invalid_payload_ack_settings invalid_stream_id malformed_message : Error
  invalid_dependency_id : Error
  io : IoError → Error

-- `Display`, where `show` is that of an `io::Error`: the other errors by the names that their derived
-- `Debug` prints.
unfoldable pub display : (IoError → String) → Error → String
display show (io e) = show e
display show bad_frame_size = "BadFrameSize"
display show too_much_padding = "TooMuchPadding"
display show invalid_setting_value = "InvalidSettingValue"
display show invalid_window_update_value = "InvalidWindowUpdateValue"
display show invalid_payload_length = "InvalidPayloadLength"
display show invalid_payload_ack_settings = "InvalidPayloadAckSettings"
display show invalid_stream_id = "InvalidStreamId"
display show malformed_message = "MalformedMessage"
display show invalid_dependency_id = "InvalidDependencyId"
