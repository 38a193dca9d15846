-- ===== src/Tests/Servers.antt =====
-- The theorems on the server, with channels in memory.
use h2l.Base.{ℕ, if◌then◌else◌, ◌≡◌, refl, none, some, List, [], ◌∷◌, false}
use h2l.Crates.Bitflags.{plain_bits}
use h2l.Frame.Settings
use h2l.Frame.Settings.{Settings}
use h2l.Frame.Any.{data_frame, settings}
use h2l.Transaction.{Link, Transaction, frame, new_link, link_changed, server_changed}
use h2l.Server.Forward.{Server, new, forward_loop, read_write_closed, accept_loop_exited}
use h2l.Server.View.{is_attached, Agrees}
use h2l.Server.Tokens.{listed, link_tokens}
use h2l.Server.Listed.{listed-link_tokens}
use h2l.Server.Agreement.{new-Agrees, forward_loop-Agrees}
use h2l.Tests.Queues.{Queues, queues}

abbrev pub idle : Queues → Queues
idle w = w

abbrev pub closure : Transaction ℕ → Queues → Queues
closure tr w = w

abbrev pub start : Server plain_bits queues
start = record { links = []; world = λ tx. []; calls = [] }

abbrev pub a_link : Link ℕ
a_link = record { socket = 5; outgoing_tx = 0 }

abbrev a_frame : Transaction ℕ
a_frame =
    frame
      (data_frame
        (record { stream_id = record { id = 1 }; payload = 65 ∷ []; flags = 0; pad_len = none }))
      (some 5)

-- A link comes, sends DATA and an ACK, and is closed; then the accept loop ends.
abbrev some_received : List ((Queues → Queues) × Transaction ℕ)
some_received =
    (idle, new_link a_link)
    ∷ (idle, a_frame)
    ∷ (idle, frame (settings Settings.ack) (some 5))
    ∷ (idle, link_changed read_write_closed 5)
    ∷ (idle, server_changed accept_loop_exited)
    ∷ (idle, a_frame)
    ∷ []

abbrev addresses : List ℕ
addresses = 80 ∷ []

forward_loop-Agrees_example :
    Agrees plain_bits queues (forward_loop plain_bits queues closure some_received start).1
unfolding new
forward_loop-Agrees_example =
    forward_loop-Agrees plain_bits queues closure some_received start
      (new-Agrees plain_bits queues addresses (λ tx. []) start refl)

abbrev pub one_link : Server plain_bits queues
one_link = record start { links = (5, a_link) ∷ [] }

-- The link of two that is not closed.
abbrev two_links : List ((Queues → Queues) × Transaction ℕ)
two_links =
    (idle, new_link a_link)
    ∷ (idle, new_link (record a_link { socket = 6 }))
    ∷ (idle, link_changed read_write_closed 5)
    ∷ []

listed-link_tokens_example :
    listed 6
      (link_tokens plain_bits queues (forward_loop plain_bits queues closure two_links start).1)
    ≡ (if is_attached 6 (forward_loop plain_bits queues closure two_links start).1.calls false
        then 1
        else 0)
listed-link_tokens_example = listed-link_tokens plain_bits queues closure two_links (λ tx. []) 6
