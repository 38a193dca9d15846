-- ===== src/Crates/TcpStream.antt =====
-- The package `async-std`: a connected stream, read by `read_exact` and written by `write_all`.
use h2l.Base.{ℕ, ◌<◌, ◌≤◌, ◌≡◌, ◌⊎◌, List, ◌++◌, length}
use h2l.Base.Outcome.{ok, err}
use h2l.Base.Exec.{Exec}
use h2l.Frame.Error.{IoError}

pub record TcpStream : Type 1 where
  pub Conn : Type 0
  pub read_exact : ℕ → Exec Conn IoError (List ℕ)
  -- `read` into a buffer of so many bytes: the bytes that it put there.
  pub read : ℕ → Exec Conn IoError (List ℕ)
  pub write_all : List ℕ → Exec Conn IoError (Unit {0})
  -- The descriptor, as `AsRawFd` gives it.
  pub raw_fd : ℕ
  -- The bytes that the stream will still deliver before it ends or fails.
  pub incoming : Conn → List ℕ
  -- The bytes that were written so far.
  pub written : Conn → List ℕ
  pub read_exact_enough :
      (c : Conn) (xs ys : List ℕ)
      → incoming c ≡ xs ++ ys
      → (c' : Conn) × (read_exact (length xs) c ≡ (ok xs, c'))
        × (incoming c' ≡ ys)
        × (written c' ≡ written c)
  pub read_exact_short :
      (c : Conn) (n : ℕ)
      → length (incoming c) < n
      → (e : IoError) × (c' : Conn) × (read_exact n c ≡ (err e, c'))
  -- Reading writes nothing.
  pub written-read_exact : (n : ℕ) (c : Conn) → written (read_exact n c).1 ≡ written c
  pub read_cases :
      (c : Conn) (n : ℕ)
      → ((xs : List ℕ) × (c' : Conn) × (read n c ≡ (ok xs, c'))
          × (length xs ≤ n)
          × (incoming c ≡ xs ++ incoming c')
          × (written c' ≡ written c))
        ⊎ ((e : IoError) × (c' : Conn) × (read n c ≡ (err e, c')) × (written c' ≡ written c))
  pub write_all_cases :
      (c : Conn) (xs : List ℕ)
      → ((c' : Conn) × (write_all xs c ≡ (ok tt, c'))
          × (written c' ≡ written c ++ xs)
          × (incoming c' ≡ incoming c))
        ⊎ ((e : IoError) × (c' : Conn) × (write_all xs c ≡ (err e, c')))
