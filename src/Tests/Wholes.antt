-- ===== src/Tests/Wholes.antt =====
-- The theorem on the whole life of a link, in memory.
use h2l.Base.{
  ℕ, All, ◌≡◌, refl, ap, ◌∙◌, ◌⊎◌, sym, true, none, some, List, [], ◌∷◌, ◌++◌, false, arith,
}
use mathlib.Core.Path.{subst}
use h2l.Base.Outcome.{panic}
use h2l.Crates.Bitflags.{plain_bits}
use h2l.Frame.Any.{settings}
use h2l.Transaction.{Transaction, transactions, token_of, frame, new_link, link_changed}
use h2l.Link.Receive
use h2l.Link.Reads.{all_received}
use h2l.Link.Flags.{flags, add_flags}
use h2l.Link.Race.{Reach, reported, load, store, report, read_step, write_step, start, later}
use h2l.Link.Reports.{NoOverlap}
use h2l.Link.Task
use h2l.Link.Task.{Reporter}
use h2l.Link.Tasks.{in_frames}
use h2l.Link.Write.{write_loop, write_rounds, after_write, write_one}
use h2l.Server.Forward.{find_link, forward_loop}
use h2l.Server.Handled.{any_ends}
use h2l.Server.Isolation.{kept, concerns}
use h2l.Composition.Opening.{opening_settings, read_loop-opening}
use h2l.Composition.Leaving.{ToldOf}
use h2l.Composition.Interleaving.{Interleaves, both_end, from_left, from_right, reports}
use h2l.Composition.Whole.{forward_loop-life}
use h2l.Tests.Memory.{vec_buffer, pipe, Pipe, delivering}
use h2l.Tests.Queues.{Queues, queues}
use h2l.Tests.Openings.{refusing}
use h2l.Tests.Servers
use h2l.Tests.Servers.{idle, closure, a_link}
use h2l.Tests.Isolations.{another_link, some_data}
use h2l.Tests.Applications.{
  alone, fresh, two_frames, client_bytes, received_alone, transactions-received_alone, sent_by_task,
}

-- The writer ends, and then the reader.
abbrev writer_first :
    Reach plain_bits (record { raw = 3; reader = reported 3; writer = reported 2 })
unfolding flags
writer_first =
    later
      (later
        (later
          (later (later (later start (write_step load)) (write_step store)) (write_step report))
          (read_step load))
        (read_step store))
      (read_step report)

writer_first-NoOverlap :
    NoOverlap plain_bits (record { raw = 3; reader = reported 3; writer = reported 2 }) writer_first
unfolding writer_first
writer_first-NoOverlap = (((((((tt, λ o. o), λ o. o), λ o. o), λ o. o), λ o. o), λ o. o))

two_frames-IsReadable : All Receive.IsReadable two_frames
two_frames-IsReadable =
    (((omega arith, omega arith), omega arith), (((omega arith, omega arith), omega arith), tt))

sent_by_task_lem :
    sent_by_task
    ≡ in_frames 5 (settings opening_settings ∷ all_received Receive.received two_frames)
      ++ (link_changed 3 5 ∷ [])
unfolding Task.read_task Task.send_frames Task.send_incoming Task.at_end Task.report flags add_flags
sent_by_task_lem =
    let (c, e) =
      read_loop-opening plain_bits vec_buffer refusing pipe 3 two_frames client_bytes []
        two_frames-IsReadable refl (omega arith) (omega arith) in
    rw (e, sent_by_task) refl

-- The writer is told that the reader was closed.
abbrev told_to_end : List ((Pipe → Pipe) × Transaction ℕ)
told_to_end = ((λ c. c), link_changed 1 5) ∷ []

-- Nothing is marked yet.
abbrev unmarked : Reporter queues
unmarked = record { raw_flags = 0; world = λ tx. []; sends = [] }

abbrev sent_by_writer : List (Transaction ℕ)
sent_by_writer =
    (Task.write_task plain_bits queues 9 5 alone vec_buffer pipe told_to_end (delivering [])
      unmarked).1.sends

sent_by_writer_lem : sent_by_writer ≡ link_changed 2 5 ∷ []
unfolding Task.write_task Task.send_incoming Task.report Task.leave flags add_flags write_loop
    write_rounds after_write write_one
sent_by_writer_lem = refl

all_left : (xs : List (Transaction ℕ)) → Interleaves xs [] xs
all_left [] = both_end
all_left (x ∷ xs) = from_left x (all_left xs)

-- The report of the writer comes first, behind the arrivals of two links.
abbrev in_between : List ((Queues → Queues) × Transaction ℕ)
in_between =
    (idle, new_link a_link)
    ∷ (idle, new_link another_link)
    ∷ (idle, link_changed 2 5)
    ∷ (idle, frame some_data (some 6))
    ∷ received_alone sent_by_task

forward_loop-life_example :
    ((forward_loop plain_bits queues closure in_between Servers.start).0 ≡ panic)
    ⊎ (any_ends (transactions in_between) ≡ true)
    ⊎ ((find_link plain_bits queues
            (token_of a_link)
            (forward_loop plain_bits queues closure in_between Servers.start).1
          ≡ none)
        × ToldOf (token_of a_link) false (all_received Receive.received two_frames) (
            kept
              (concerns (token_of a_link))
              (forward_loop plain_bits queues closure in_between Servers.start).1.calls))
unfolding token_of
forward_loop-life_example =
    forward_loop-life plain_bits queues closure vec_buffer refusing pipe a_link 9 alone alone 3
      two_frames client_bytes (delivering []) [] fresh unmarked told_to_end 3 2
      (record { raw = 3; reader = reported 3; writer = reported 2 }) writer_first
      (link_changed 2 5 ∷ sent_by_task) in_between Servers.start two_frames-IsReadable refl
      (omega arith) (omega arith) refl refl writer_first-NoOverlap refl refl
      (ap reports sent_by_task_lem) (ap reports sent_by_writer_lem)
      (subst (λ k. Interleaves sent_by_task k (link_changed 2 5 ∷ sent_by_task))
        (sym sent_by_writer_lem) (from_right (link_changed 2 5) (all_left sent_by_task)))
      (ap (λ k. new_link a_link ∷ link_changed 2 5 ∷ k)
        (ap (kept (concerns 5)) (transactions-received_alone sent_by_task ∙ sent_by_task_lem)
          ∙ sym sent_by_task_lem))
      (λ token. refl) refl
