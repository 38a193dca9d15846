-- ===== src/Tests/Errors.antt =====
-- What errors print.
use Prim.Native.String.{String}
use h2l.Base.{ℕ, ◌≡◌, refl}
use h2l.Frame.Error
use h2l.Frame.Error.{IoError, unexpected_eof, bad_frame_size}
use h2l.Frame.Reason
use h2l.Frame.Reason.{Reason}
use h2l.Errors
use h2l.Errors.{user_error}
use h2l.Client.Handshake
use h2l.Client.Handshake.{from_frame_error, from_io_error}

abbrev show : IoError → String
show e = "eof"

abbrev hex : ℕ → String
hex n = "e"

cancelled :
    Errors.display show (Errors.from_reason (Reason.from_u32 8))
    ≡ "Protocol error: stream no longer needed"
unfolding Errors.display Errors.from_reason Reason.from_u32 Reason.display Reason.description
cancelled = refl

by_the_user : Errors.display show (Errors.from_user_error user_error) ≡ "User error: UserError"
unfolding Errors.display Errors.from_user_error Errors.display_user_error
by_the_user = refl

cut_off : Errors.display show (Errors.from_io unexpected_eof) ≡ "eof"
unfolding Errors.display Errors.from_io
cut_off = refl

unknown_code : Reason.debug hex (Reason.from_u32 14) ≡ "Reason(e)"
unfolding Reason.debug Reason.from_u32
unknown_code = refl

handshake_refused : Handshake.display show (from_frame_error bad_frame_size) ≡ "BadFrameSize"
unfolding Handshake.display from_frame_error Error.display
handshake_refused = refl

handshake_cut_off : Handshake.display show (from_io_error unexpected_eof) ≡ "eof"
unfolding Handshake.display from_io_error
handshake_cut_off = refl
