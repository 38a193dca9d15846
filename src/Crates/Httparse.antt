-- ===== src/Crates/Httparse.antt =====
-- The package `httparse`: the parser of an HTTP/1.1 request, with room for 16 headers. Names and
-- values are strings of bytes.
use h2l.Base.{ℕ, List, Bool}
use h2l.Base.Outcome.{Outcome}

pub data ParseError : Type 0 where
  header_name header_value new_line status token too_many_headers version : ParseError

pub record Request : Type 0 where
  pub is_complete : Bool
  pub headers : List (List ℕ × List ℕ)

pub record Httparse : Type 0 where
  pub parse : List ℕ → Outcome ParseError Request
