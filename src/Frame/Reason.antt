-- ===== src/Frame/Reason.antt =====
-- frame/reason.rs: error codes as numbers, and their descriptions.
use Prim.Native.String.{String, ◌++◌}
use h2l.Base.{ℕ, ◌==◌, if◌then◌else◌}

pub record Reason : Type 0 where
  pub code : ℕ

unfoldable pub description : Reason → String
description r =
    if r.code == 0
    then "not a result of an error"
    else if r.code == 1
    then "unspecific protocol error detected"
    else if r.code == 2
    then "unexpected internal error encountered"
    else if r.code == 3
    then "flow-control protocol violated"
    else if r.code == 4
    then "settings ACK not received in timely manner"
    else if r.code == 5
    then "received frame when stream half-closed"
    else if r.code == 6
    then "frame with invalid size"
    else if r.code == 7
    then "refused stream before processing any application logic"
    else if r.code == 8
    then "stream no longer needed"
    else if r.code == 9
    then "unable to maintain the header compression context"
    else if r.code == 10
    then "connection established in response to a CONNECT request was reset or abnormally closed"
    else if r.code == 11
    then "detected excessive load generating behavior"
    else if r.code == 12
    then "security properties do not meet minimum requirements"
    else if r.code == 13
    then "endpoint requires HTTP/1.1"
    else "unknown reason"

unfoldable pub from_u32 : ℕ → Reason
from_u32 src = record { code = src }

unfoldable pub to_u32 : Reason → ℕ
to_u32 r = r.code

-- `Debug`, where `hex` is what `LowerHex` of a number prints.
unfoldable pub debug : (ℕ → String) → Reason → String
debug hex r =
    if r.code == 0
    then "NO_ERROR"
    else if r.code == 1
    then "PROTOCOL_ERROR"
    else if r.code == 2
    then "INTERNAL_ERROR"
    else if r.code == 3
    then "FLOW_CONTROL_ERROR"
    else if r.code == 4
    then "SETTINGS_TIMEOUT"
    else if r.code == 5
    then "STREAM_CLOSED"
    else if r.code == 6
    then "FRAME_SIZE_ERROR"
    else if r.code == 7
    then "REFUSED_STREAM"
    else if r.code == 8
    then "CANCEL"
    else if r.code == 9
    then "COMPRESSION_ERROR"
    else if r.code == 10
    then "CONNECT_ERROR"
    else if r.code == 11
    then "ENHANCE_YOUR_CALM"
    else if r.code == 12
    then "INADEQUATE_SECURITY"
    else if r.code == 13
    then "HTTP_1_1_REQUIRED"
    else "Reason(" ++ hex r.code ++ ")"

-- `Display`.
unfoldable pub display : Reason → String
display r = description r
