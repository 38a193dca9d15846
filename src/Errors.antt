-- ===== src/Errors.antt =====
-- error.rs: the errors of operations.
use Prim.Native.String.{String, ◌++◌}
use h2l.Frame.Error.{IoError}
use h2l.Frame.Reason
use h2l.Frame.Reason.{Reason}

pub data UserError : Type 0 where
  user_error : UserError

pub data SendError : Type 0 where
  send_error : SendError

pub data Kind : Type 0 where
  proto : Reason → Kind
  user : UserError → Kind
  io : IoError → Kind

pub record Error : Type 0 where
  pub kind : Kind

unfoldable pub from_reason : Reason → Error
from_reason src = record { kind = proto src }

unfoldable pub from_user_error : UserError → Error
from_user_error src = record { kind = user src }

unfoldable pub from_io : IoError → Error
from_io src = record { kind = io src }

-- `Display` of `UserError` prints what its derived `Debug` does, the name of the type.
unfoldable pub display_user_error : UserError → String
display_user_error e = "UserError"

-- `Display`, where `show` is that of an `io::Error`.
unfoldable pub display : (IoError → String) → Error → String
display show e = elim e.kind [
  | proto reason ↦ "Protocol error: " ++ Reason.display reason
  | user e ↦ "User error: " ++ display_user_error e
  | io e ↦ show e
]
