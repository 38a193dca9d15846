-- ===== src/Frame/Headers.antt =====
-- frame/headers.rs and frame/continuation.rs: the HEADERS and CONTINUATION frames, which carry raw
-- header data.
use h2l.Base.{ℕ, List}
use h2l.Frame.StreamId.{StreamId}
use h2l.Frame.Head
use h2l.Frame.Head.{Head, Kind}

pub record Headers : Type 0 where
  pub stream_id : StreamId
  pub flags : ℕ
  pub raw_data : List ℕ

abbrev pub new : StreamId → List ℕ → Headers
new stream_id raw_data = record { stream_id = stream_id; flags = 0; raw_data = raw_data }

abbrev pub head_of : Headers → Head
head_of h = record { kind = Kind.headers; flags = h.flags; stream_id = h.stream_id }

pub record Continuation : Type 0 where
  pub stream_id : StreamId
  pub raw_data : List ℕ

abbrev pub new_continuation : StreamId → List ℕ → Continuation
new_continuation stream_id raw_data = record { stream_id = stream_id; raw_data = raw_data }

abbrev pub continuation_head : Continuation → Head
continuation_head c = record {
  kind = Kind.continuation;
  flags = Head.end_headers;
  stream_id = c.stream_id;
}
