-- ===== src/Tests/Endings.antt =====
-- The theorems on how the tasks of a client end, in memory.
use h2l.Base.{ℕ, ◌≡◌, refl, ◌⊎◌, List, [], ◌∷◌, ◌++◌, true, false}
use h2l.Base.Outcome.{ok}
use mathlib.Core.List.Memᴰ.{head}
use h2l.Crates.Bitflags.{plain_bits}
use h2l.Transaction.{transactions, Transaction, client_changed}
use h2l.Link.Write.{write_rounds, after_write}
use h2l.Client.Flags.{add_flags}
use h2l.Client.Forward.{Client, forward_loop}
use h2l.Client.Forwarded.{Panics}
use h2l.Client.Task.{write_task, leave, flush_outgoing, report, send_incoming}
use h2l.Client.Write.{write_loop, write_one}
use h2l.Composition.Endless.{IsSent, by_write_task, forward_loop-transactions}
use h2l.Tests.Memory.{vec_buffer, pipe, Pipe, delivering}
use h2l.Tests.Queues.{queues}
use h2l.Tests.Clients.{OwnShared, closure}
use h2l.Tests.Deliveries.{alone, connected}

-- Both sides are closed by the time that the forward loop goes on.
abbrev half_closed : Client plain_bits queues
half_closed = record {
  shared = record { raw_flags = 28; raw_token = 7; outgoing_tx = 0; world = λ tx. [] };
  calls = [];
}

-- The report of a writing task that was told to end.
abbrev one_report : List ((OwnShared → OwnShared) × Transaction ℕ)
one_report = ((λ s. s), client_changed 20 7) ∷ []

abbrev told_to_end : List ((Pipe → Pipe) × Transaction ℕ)
told_to_end = ((λ c. c), client_changed 8 7) ∷ []

one_report-IsSent : IsSent plain_bits vec_buffer pipe queues 9 true (client_changed 20 7)
unfolding write_task leave after_write write_one flush_outgoing report send_incoming write_loop
    write_rounds add_flags
one_report-IsSent =
    by_write_task 7 alone told_to_end (delivering []) connected (λ n s h. h) (refl, refl) refl
      (head refl)

forward_loop-transactions_example :
    ((x : Client plain_bits queues) × (forward_loop plain_bits queues closure one_report half_closed
        ≡ (ok false, x))
      × (x.calls ≡ [] ++ transactions one_report))
    ⊎ Panics plain_bits queues closure one_report half_closed
forward_loop-transactions_example =
    forward_loop-transactions plain_bits vec_buffer pipe queues 9 true closure one_report
      half_closed (one_report-IsSent, tt)
