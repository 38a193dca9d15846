-- ===== src/Tests/Lifecycles.antt =====
-- The theorems on the end of a link, with channels in memory.
use h2l.Base.{ℕ, ◌≡◌, refl, ◌⊎◌, true, false, [], ◌∷◌, ◌++◌}
use h2l.Base.Outcome.{ok, err}
use h2l.Crates.Bitflags.{plain_bits}
use h2l.Transaction.{Link, Transaction}
use h2l.Server.Forward.{Server, find_link, on_transaction}
use h2l.Crates.Channel.{TrySendError}
use h2l.Link.Write.{write_loop}
use h2l.Tests.Streams.{to_link}
use h2l.Composition.Lifecycle.{reader_report, writer_told}
use h2l.Tests.Memory.{vec_buffer, pipe, delivering}
use h2l.Tests.Queues.{Queues, queues}

abbrev closure : Transaction ℕ → Queues → Queues
closure tr w = w

abbrev a_link : Link ℕ
a_link = record { socket = 5; outgoing_tx = 0 }

abbrev one_link : Server plain_bits queues
one_link = record { links = (5, a_link) ∷ []; world = λ tx. []; calls = [] }

writer_told_example :
    (w : Queues) × (on_transaction plain_bits queues closure
        (reader_report plain_bits queues 5)
        one_link
      ≡ (ok false, record one_link { world = w }))
    × (((w 0 ≡ [] ++ (reader_report plain_bits queues 5 ∷ []))
          × (write_loop plain_bits vec_buffer pipe
                (((λ c. c), reader_report plain_bits queues 5) ∷ to_link)
                (delivering [])
              ≡ (ok true, delivering [])))
        ⊎ ((e : TrySendError) × (queues.try_send 0 (reader_report plain_bits queues 5) (λ tx. [])
              ≡ (err e, λ tx. []))))
unfolding find_link
writer_told_example =
    writer_told plain_bits queues closure vec_buffer pipe 5 a_link one_link (λ c. c) to_link
      (delivering []) refl
