-- ===== src/Tests/Memory.antt =====
-- A buffer and a connection in memory: what the packages promise can be had.
use h2l.Base.{
  ℕ, ◌+◌, ◌-◌, ◌*◌, ◌<◌, ◌≡◌, refl, ap, inl, ◌⊎◌, ◌≤◌, length-take-le, take-append-drop, List, [],
  ◌∷◌, ◌++◌, arith, length, length-append, take, drop, get_or, take-append_length,
  drop-append_length, leb, if◌then◌else◌,
}
use h2l.Base.Outcome.{ok, err}
use h2l.Base.Exec.{Exec}
use h2l.Base.Word.{be_bytes_2, be_bytes_3, be_bytes_4}
use h2l.Crates.BytesMut.{BytesMut, usize_max}
use h2l.Crates.TcpStream.{TcpStream}
use h2l.Frame.Error.{IoError, unexpected_eof}

abbrev pub vec_buffer : BytesMut
vec_buffer = record {
  Buffer = List ℕ;
  with_capacity = λ n. [];
  bytes = λ b. b;
  remaining_mut = λ b. usize_max - length b;
  put_u8 = λ b n. b ++ (n ∷ []);
  put_u16 = λ b n. b ++ be_bytes_2 n;
  put_u32 = λ b n. b ++ be_bytes_4 n;
  put_uint = λ b n k. b ++ be_bytes_3 n;
  put_slice = λ b xs. b ++ xs;
  get_uint = λ xs k. get_or xs 0 0 * 0x1_0000 + get_or xs 1 0 * 0x100 + get_or xs 2 0;
  bytes-with_capacity = λ n. refl;
  remaining_mut_room = λ b n h. omega arith;
  bytes-put_u8 = λ b n h. refl;
  bytes-put_u16 = λ b n h. refl;
  bytes-put_u32 = λ b n h. refl;
  bytes-put_uint = λ b n h. refl;
  bytes-put_slice = λ b xs h. refl;
  get_uint_three = λ x y z rest hx hy hz. refl;
}

pub record Pipe : Type 0 where
  pub incoming : List ℕ
  pub written : List ℕ

abbrev pub pipe_read : ℕ → Exec Pipe IoError (List ℕ)
pipe_read n c =
    if leb n (length c.incoming)
    then (ok (take n c.incoming), record c { incoming = drop n c.incoming })
    else (err unexpected_eof, c)

abbrev pipe_write : List ℕ → Exec Pipe IoError (Unit {0})
pipe_write xs c = (ok tt, record c { written = c.written ++ xs })

pub pipe_read_enough :
    (c : Pipe) (xs ys : List ℕ)
    → c.incoming ≡ xs ++ ys
    → (c' : Pipe) × (pipe_read (length xs) c ≡ (ok xs, c'))
      × (c'.incoming ≡ ys)
      × (c'.written ≡ c.written)
pipe_read_enough c xs ys h = (
  record c { incoming = ys },
  ground (
    arith,
    length-append xs ys,
    take-append_length xs ys,
    drop-append_length xs ys,
    ap (λ (l : List ℕ). length l) h,
    ap (λ (l : List ℕ). take (length xs) l) h,
    ap (λ (l : List ℕ). drop (length xs) l) h,
  ),
  refl,
  refl,
)

pub pipe_read_short :
    (c : Pipe) (n : ℕ)
    → length c.incoming < n
    → (e : IoError) × (c' : Pipe) × (pipe_read n c ≡ (err e, c'))
pipe_read_short c n h = (unexpected_eof, c, ground arith)

pub pipe_read-written : (n : ℕ) (c : Pipe) → (pipe_read n c).1.written ≡ c.written
pipe_read-written n c = ground arith

-- `read` gives all that fits.
abbrev pub pipe_read_some : ℕ → Exec Pipe IoError (List ℕ)
pipe_read_some n c = (ok (take n c.incoming), record c { incoming = drop n c.incoming })

pub pipe_read_some_cases :
    (c : Pipe) (n : ℕ)
    → ((xs : List ℕ) × (c' : Pipe) × (pipe_read_some n c ≡ (ok xs, c'))
        × (length xs ≤ n)
        × (c.incoming ≡ xs ++ c'.incoming)
        × (c'.written ≡ c.written))
      ⊎ ((e : IoError) × (c' : Pipe) × (pipe_read_some n c ≡ (err e, c'))
          × (c'.written ≡ c.written))
pipe_read_some_cases c n = inl (
  take n c.incoming,
  record c { incoming = drop n c.incoming },
  refl,
  length-take-le n c.incoming,
  take-append-drop n c.incoming,
  refl,
)

abbrev pub pipe : TcpStream
pipe = record {
  Conn = Pipe;
  read_exact = pipe_read;
  read = pipe_read_some;
  write_all = pipe_write;
  raw_fd = 7;
  incoming = λ c. c.incoming;
  written = λ c. c.written;
  read_exact_enough = pipe_read_enough;
  read_exact_short = pipe_read_short;
  written-read_exact = pipe_read-written;
  read_cases = pipe_read_some_cases;
  write_all_cases = λ c xs. inl (record c { written = c.written ++ xs }, refl, refl, refl);
}

-- A connection that has these bytes to deliver.
abbrev pub delivering : List ℕ → Pipe
delivering xs = record { incoming = xs; written = [] }
