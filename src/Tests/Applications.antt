-- ===== src/Tests/Applications.antt =====
-- The theorems on what a reading task sends, and what the application is told of it, in memory.
use h2l.Base.{ℕ, ◌≡◌, refl, ap, inr, none, List, [], ◌∷◌, ◌++◌, arith}
use h2l.Base.Outcome.{panic}
use h2l.Consts.{http_2_0_preface, http_2_0_settings}
use h2l.Crates.Bitflags.{plain_bits}
use h2l.Frame.Any.{Frame, data_frame}
use h2l.Transaction.{transactions, Transaction, new_link}
use h2l.Link.Reads.{stream_wire}
use h2l.Link.Handshake.{read_loop}
use h2l.Link.Task.{Reporter, read_task}
use h2l.Link.Tasks.{Sends, SaysClosed, read_task-Sends}
use h2l.Server.Forward.{find_link, forward_loop, write_closed}
use h2l.Composition.Early.{forward_loop-panic}
use h2l.Tests.Memory.{vec_buffer, pipe, Pipe, delivering}
use h2l.Tests.Queues.{Queues, queues}
use h2l.Tests.Openings.{refusing}
use h2l.Tests.Servers.{start, a_link, idle, closure}

-- No other task does anything.
abbrev pub alone : ℕ → Reporter queues → Reporter queues
alone n s = s

-- The writer is closed before.
abbrev pub fresh : Reporter queues
fresh = record { raw_flags = write_closed; world = λ tx. []; sends = [] }

abbrev pub two_frames : List Frame
two_frames =
    data_frame
      (record { stream_id = record { id = 1 }; payload = 65 ∷ []; flags = 0; pad_len = none })
    ∷ data_frame
        (record { stream_id = record { id = 1 }; payload = 66 ∷ []; flags = 1; pad_len = none })
    ∷ []

abbrev pub client_bytes : Pipe
client_bytes = delivering (http_2_0_preface ++ http_2_0_settings ++ stream_wire two_frames ++ [])

read_task-Sends_example :
    Sends queues 5 SaysClosed
      (read_loop plain_bits vec_buffer refusing pipe 4 client_bytes)
      fresh
      (read_task plain_bits queues 9 5 alone vec_buffer refusing pipe 4 client_bytes fresh)
read_task-Sends_example =
    read_task-Sends plain_bits queues 9 5 alone vec_buffer refusing pipe 4 client_bytes fresh
      (λ n s h. h) (λ n s h. h) (inr refl)

abbrev pub received_alone : List (Transaction ℕ) → List ((Queues → Queues) × Transaction ℕ)
received_alone [] = []
received_alone (tr ∷ rest) = (idle, tr) ∷ received_alone rest

pub transactions-received_alone :
    (xs : List (Transaction ℕ)) → transactions (received_alone xs) ≡ xs
transactions-received_alone [] = refl
transactions-received_alone (tr ∷ rest) =
    ap (λ (l : List (Transaction ℕ)). tr ∷ l) (transactions-received_alone rest)

abbrev pub sent_by_task : List (Transaction ℕ)
sent_by_task =
    (read_task plain_bits queues 9 5 alone vec_buffer refusing pipe 4 client_bytes fresh).1.sends

-- The server does not have the link yet.
forward_loop-panic_example :
    (tr : Transaction ℕ) × (more : List (Transaction ℕ)) × (sent_by_task ≡ tr ∷ more)
    × (forward_loop plain_bits queues closure ((idle, tr) ∷ (idle, new_link a_link) ∷ []) start
        ≡ (panic, start))
unfolding find_link
forward_loop-panic_example =
    forward_loop-panic plain_bits queues closure vec_buffer refusing pipe 5 9 alone 3 two_frames
      client_bytes [] fresh idle ((idle, new_link a_link) ∷ []) start
      (((omega arith, omega arith), omega arith), (((omega arith, omega arith), omega arith), tt))
      refl (omega arith) (omega arith) refl refl
