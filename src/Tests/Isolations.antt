-- ===== src/Tests/Isolations.antt =====
-- The theorems on one link among others, on the side of the server, with channels in memory.
use h2l.Base.{ℕ, refl, inl, inr, sym, append-nil, none, some, List, [], ◌∷◌, arith}
use h2l.Crates.Bitflags.{plain_bits}
use h2l.Frame.Settings
use h2l.Frame.Any.{Frame, data_frame, settings}
use h2l.Transaction.{Link, Transaction, frame, new_link, link_changed, token_of}
use h2l.Server.Forward.{forward_loop, read_closed}
use h2l.Server.Isolation.{concerns, Isolates, forward_loop-Isolates}
use h2l.Server.Outgoing.{Puts}
use h2l.Server.Confined.{forward_loop-Puts}
use h2l.Tests.Queues.{Queues, queues}
use h2l.Tests.Servers.{idle, closure, start, a_link}

abbrev pub another_link : Link ℕ
another_link = record { socket = 6; outgoing_tx = 1 }

abbrev pub some_data : Frame
some_data =
    data_frame
      (record { stream_id = record { id = 1 }; payload = 65 ∷ []; flags = 0; pad_len = none })

-- Two links come, and send DATA and SETTINGS; the reader of the second ends.
abbrev both_links : List ((Queues → Queues) × Transaction ℕ)
both_links =
    (idle, new_link a_link)
    ∷ (idle, new_link another_link)
    ∷ (idle, frame some_data (some 5))
    ∷ (idle, frame (settings Settings.default) (some 6))
    ∷ (idle, frame some_data (some 6))
    ∷ (idle, link_changed read_closed 6)
    ∷ []

forward_loop-Isolates_example : Isolates plain_bits queues closure (concerns 6) both_links start
forward_loop-Isolates_example = forward_loop-Isolates plain_bits queues closure 6 both_links start

-- SETTINGS and reports.
abbrev IsControl : Transaction ℕ → Type 0
IsControl (frame (settings v) to) = Unit {0}
IsControl (link_changed flags token) = Unit {0}
IsControl _ = ⊥

nothing_put : (w : Queues) → Puts plain_bits queues IsControl 6 1 w w
nothing_put w = ([], sym (append-nil (w 1)), tt)

forward_loop-Puts_example :
    Puts plain_bits queues IsControl 6 1
      (λ tx. [])
      (forward_loop plain_bits queues closure both_links start).1.world
unfolding token_of
forward_loop-Puts_example =
    forward_loop-Puts plain_bits queues IsControl 6 1 closure both_links start
      (λ tr w. nothing_put w)
      (
        (nothing_put, inr (λ e. ground arith)),
        (
          (nothing_put, inl refl),
          (
            (nothing_put, tt),
            ((nothing_put, (tt, (tt, tt))), ((nothing_put, tt), ((nothing_put, (tt, tt)), tt))),
          ),
        ),
      )
      tt
