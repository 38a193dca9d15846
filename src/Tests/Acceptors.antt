-- ===== src/Tests/Acceptors.antt =====
-- The theorems on the accept loop and the end of the server, with channels in memory.
use h2l.Base.{ℕ, ◌≡◌, refl, List, [], ◌∷◌, ◌++◌, true, false}
use h2l.Base.Outcome.{ok, err}
use h2l.Crates.Bitflags.{plain_bits}
use h2l.Frame.Error.{IoError}
use h2l.Transaction.{Transaction, new_link, link_changed, server_changed}
use h2l.Server.Forward.{Server, read_write_closed, accept_loop_exited, forward_loop_exited}
use h2l.Server.Accept.{
  Incoming, arrived, timed_out, Acceptor, accept_loop, accept_all, send_trans, leave, finish,
  terminated,
}
use h2l.Server.Accepted.{is_stopped, arrivals, new_links, last_word, accept_loop-new_links}
use h2l.Composition.Shutdown.{attached_tokens, tokens, finish-terminated}
use h2l.Tests.Queues.{Queues, queues}

abbrev idle : Queues → Queues
idle w = w

abbrev closure : Transaction ℕ → Queues → Queues
closure tr w = w

-- Two connections, a timeout between them, and a timeout after the exit flag was set.
abbrev listened : List ((Queues → Queues) × Incoming ℕ)
listened =
    (idle, arrived 5 1)
    ∷ (idle, timed_out false)
    ∷ (idle, arrived 6 2)
    ∷ (idle, timed_out true)
    ∷ (idle, arrived 7 3)
    ∷ []

abbrev no_sends : Acceptor queues 0
no_sends = record { world = λ tx. []; sends = [] }

abbrev no_links : Server plain_bits queues
no_links = record { links = []; world = λ tx. []; calls = [] }

accept_loop-new_links_example :
    ((s : Acceptor queues 0) × (accept_loop queues 0 (ok tt) listened no_sends
        ≡ (ok (is_stopped listened), s))
      × (s.sends ≡ [] ++ new_links (arrivals listened) ++ last_word (is_stopped listened)))
    × ((e : IoError) → accept_loop queues 0 (err e) listened no_sends ≡ (err e, no_sends))
accept_loop-new_links_example = accept_loop-new_links queues 0 listened no_sends

-- Between the two links, the first is closed.
abbrev received : List ((Queues → Queues) × Transaction ℕ)
received =
    (idle, new_link (record { socket = 5; outgoing_tx = 1 }))
    ∷ (idle, link_changed read_write_closed 5)
    ∷ (idle, new_link (record { socket = 6; outgoing_tx = 2 }))
    ∷ (idle, server_changed accept_loop_exited)
    ∷ []

finish-terminated_example :
    (s : Server plain_bits queues) × (finish plain_bits queues closure received no_links
      ≡ (ok tt, s))
    × ((xs : List (Transaction ℕ)) × (s.calls
          ≡ [] ++ xs ++ (server_changed forward_loop_exited ∷ server_changed terminated ∷ []))
        × (attached_tokens xs ≡ tokens (arrivals listened)))
unfolding accept_loop accept_all send_trans leave
finish-terminated_example =
    finish-terminated plain_bits queues closure 0 listened (λ tx. []) received no_links refl refl
      (tt, (tt, (tt, (tt, tt))))
