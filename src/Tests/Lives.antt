-- ===== src/Tests/Lives.antt =====
-- The theorems on the life of a link among others, in memory.
use h2l.Base.{ℕ, ◌≡◌, refl, ap, ◌∙◌, ◌⊎◌, sym, append-nil, some, List, [], ◌∷◌, ◌++◌, true, arith}
use h2l.Base.Outcome.{panic}
use h2l.Crates.Bitflags.{plain_bits}
use h2l.Transaction.{Transaction, transactions, token_of, frame, new_link, link_changed}
use h2l.Link.Receive
use h2l.Link.Reads.{all_received}
use h2l.Link.Race.{State, Reach, reported}
use h2l.Link.Rely.{Relies, Reach-Relies}
use h2l.Server.View.{is_some}
use h2l.Server.Forward.{find_link, forward_loop, read_closed, write_closed}
use h2l.Server.Handled.{visible_each, any_ends}
use h2l.Server.Isolation.{kept, carries, IsPrefix}
use h2l.Composition.Application.{shown}
use h2l.Composition.Many.{forward_loop-shown}
use h2l.Composition.Life.{forward_loop-Overlap}
use h2l.Tests.Memory.{vec_buffer, pipe}
use h2l.Tests.Queues.{Queues, queues}
use h2l.Tests.Openings.{refusing}
use h2l.Tests.Servers.{idle, closure, start, a_link}
use h2l.Tests.Isolations.{another_link, some_data}
use h2l.Tests.Links.{in_turn}
use h2l.Tests.Applications.{
  alone, fresh, two_frames, client_bytes, received_alone, transactions-received_alone, sent_by_task,
}

-- What the link sends, behind the arrival and a frame of another link.
abbrev in_between : List ((Queues → Queues) × Transaction ℕ)
in_between =
    (idle, new_link a_link)
    ∷ (idle, new_link another_link)
    ∷ (idle, frame some_data (some 6))
    ∷ received_alone sent_by_task

forward_loop-shown_example :
    IsPrefix
      (kept (carries 5) (forward_loop plain_bits queues closure in_between start).1.calls)
      (shown 5 (all_received Receive.received two_frames))
    × (((forward_loop plain_bits queues closure in_between start).0 ≡ panic)
        ⊎ (any_ends (transactions in_between) ≡ true)
        ⊎ (shown 5 (all_received Receive.received two_frames)
            ≡ kept (carries 5) (forward_loop plain_bits queues closure in_between start).1.calls
              ++ visible_each []))
forward_loop-shown_example =
    forward_loop-shown plain_bits queues closure vec_buffer refusing pipe 5 9 alone 3 two_frames
      client_bytes [] fresh in_between start []
      (((omega arith, omega arith), omega arith), (((omega arith, omega arith), omega arith), tt))
      refl (omega arith) (omega arith) refl refl
      (ap (kept (carries 5)) (sym (transactions-received_alone sent_by_task))
        ∙ sym (append-nil (kept (carries 5) (transactions (received_alone sent_by_task)))))

-- The whole life of a link, with another one in between; the two reports of its tasks are given.
abbrev a_life : ℕ → ℕ → List ((Queues → Queues) × Transaction ℕ)
a_life v u =
    (idle, new_link a_link)
    ∷ (idle, new_link another_link)
    ∷ (idle, frame some_data (some 5))
    ∷ (idle, link_changed v 5)
    ∷ (idle, frame some_data (some 6))
    ∷ (idle, link_changed u 5)
    ∷ []

forward_loop-Overlap_example :
    ((final : State) × Reach plain_bits final
      × (final.reader ≡ reported read_closed)
      × (final.writer ≡ reported write_closed))
    × (((forward_loop plain_bits queues closure (a_life 1 2) start).0 ≡ panic)
        ⊎ (any_ends (transactions (a_life 1 2)) ≡ true)
        ⊎ (is_some (
              find_link plain_bits queues
                (token_of a_link)
                (forward_loop plain_bits queues closure (a_life 1 2) start).1)
            ≡ true))
unfolding token_of
forward_loop-Overlap_example =
    forward_loop-Overlap plain_bits queues closure a_link (some_data ∷ []) (a_life 1 2) start
      (frame some_data (some 5) ∷ link_changed 1 5 ∷ [], [], refl, refl) (λ token. refl) refl

Reach-Relies_example : Relies (record { raw = 3; reader = reported 1; writer = reported 3 })
Reach-Relies_example = Reach-Relies plain_bits in_turn
