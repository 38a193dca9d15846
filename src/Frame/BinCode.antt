-- ===== src/Frame/BinCode.antt =====
-- frame/bin_code.rs: the frame of the kind 10, which `Kind::from` does not know.
use h2l.Base.{ℕ, List}
use h2l.Frame.StreamId.{StreamId}
use h2l.Frame.Head.{Head, Kind}

pub record BinCode : Type 0 where
  pub stream_id : StreamId
  pub flags : ℕ
  pub payload : List ℕ

abbrev pub new : StreamId → List ℕ → BinCode
new stream_id payload = record { stream_id = stream_id; flags = 0; payload = payload }

abbrev pub head_of : BinCode → Head
head_of b = record { kind = Kind.bin_code; flags = b.flags; stream_id = b.stream_id }
