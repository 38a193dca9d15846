-- ===== src/Tests/Clients.antt =====
-- The theorem on the forward loop of a client, with channels in memory.
use h2l.Base.{ℕ, true, ◌≡◌, refl, ◌⊎◌, none, List, [], ◌∷◌, ◌++◌}
use h2l.Base.Outcome.{ok}
use h2l.Crates.Bitflags.{plain_bits}
use h2l.Transaction.{Transaction, bytes, client_changed}
use h2l.Client.Forward.{try_send, Shared, Client, forward_loop, mantain_loop_exited, read_closed}
use h2l.Client.Forwarded.{forwarded, forward_loop-forwarded, Panics}
use h2l.Tests.Queues.{queues}

abbrev pub OwnShared : Type 0
OwnShared = Shared plain_bits queues

abbrev same : OwnShared → OwnShared
same shared = shared

abbrev pub closure : Transaction ℕ → OwnShared → OwnShared
closure tr shared = shared

abbrev pub fresh : Client plain_bits queues
fresh = record {
  shared = record { raw_flags = 0x8; raw_token = 7; outgoing_tx = 0; world = λ tx. [] };
  calls = [];
}

-- The reader closes, bytes come, the mantain loop exits, and bytes come.
abbrev all_received : List ((OwnShared → OwnShared) × Transaction ℕ)
all_received =
    (same, client_changed read_closed 7)
    ∷ (same, bytes (65 ∷ []) none)
    ∷ (same, client_changed mantain_loop_exited 7)
    ∷ (same, bytes (66 ∷ []) none)
    ∷ []

forward_loop-forwarded_example :
    ((s : Client plain_bits queues) × (forward_loop plain_bits queues closure all_received fresh
        ≡ (ok true, s))
      × (s.calls ≡ [] ++ forwarded plain_bits all_received))
    ⊎ Panics plain_bits queues closure all_received fresh
forward_loop-forwarded_example = forward_loop-forwarded plain_bits queues closure all_received fresh

-- What the application sends is put into the outgoing channel.
sent_by_application :
    (try_send plain_bits queues (bytes (65 ∷ []) none) fresh.shared).1.world 0
    ≡ bytes (65 ∷ []) none ∷ []
unfolding try_send
sent_by_application = refl
