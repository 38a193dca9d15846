-- ===== src/Tests/Streams.antt =====
-- The theorems on the two loops of links and clients, at connections in memory.
use h2l.Base.{Bool, true, false, ℕ, ◌≡◌, ◌≢◌, refl, ◌⊎◌, inl, none, some, List, [], ◌∷◌, arith}
use h2l.Base.Outcome.{ok}
use h2l.Crates.Bitflags.{plain_bits}
use h2l.Frame.Settings
use h2l.Frame.Any.{Frame, settings}
use h2l.Transaction.{Transaction, bytes, frame, client_changed, link_changed}
use h2l.Link
use h2l.Link.Read.{more}
use h2l.Link.Reads.{all_received}
use h2l.Link.Termination.{read_frames-ne-more}
use h2l.Link.Written.{Failed}
use h2l.Client
use h2l.Client.Termination.{read_frames_end}
use h2l.Composition.Frames.{queued, frames, Arrives, link_receives}
use h2l.Tests.Memory.{vec_buffer, pipe, Pipe, delivering}

-- A header of an unknown kind and one byte more.
abbrev odd_bytes : List ℕ
odd_bytes = 0 ∷ 0 ∷ 1 ∷ 9 ∷ 0 ∷ 0 ∷ 0 ∷ 0 ∷ 1 ∷ 7 ∷ 7 ∷ []

read_frames-ne-more_example :
    (Link.Read.read_frames plain_bits vec_buffer pipe 12 (delivering odd_bytes)).1.0 ≢ more
read_frames-ne-more_example =
    read_frames-ne-more plain_bits vec_buffer pipe 12 (delivering odd_bytes) (omega arith)

read_frames_end_example :
    (Client.Read.read_frames plain_bits vec_buffer pipe 12 (delivering odd_bytes)).1.0 ≢ more
read_frames_end_example =
    read_frames_end plain_bits vec_buffer pipe 12 (delivering odd_bytes) (omega arith)

abbrev pub same : Pipe → Pipe
same c = c

-- Bytes, a frame, the end of the reader, and bytes that are not written any more.
abbrev pub to_link : List ((Pipe → Pipe) × Transaction ℕ)
to_link =
    (same, bytes (65 ∷ []) none)
    ∷ (same, frame (settings Settings.ack) (some 5))
    ∷ (same, link_changed 1 5)
    ∷ (same, bytes (66 ∷ []) none)
    ∷ []

abbrev pub to_client : List ((Pipe → Pipe) × Transaction ℕ)
to_client =
    (same, frame (settings Settings.ack) (some 5))
    ∷ (same, client_changed 8 5)
    ∷ (same, bytes (66 ∷ []) none)
    ∷ []

abbrev two_frames : List ((Pipe → Pipe) × Frame)
two_frames = (same, settings Settings.ack) ∷ (same, settings Settings.ack) ∷ []

link_receives_example :
    (c : Pipe) × (left : Bool) × (Client.Write.write_loop {Sender = ℕ} plain_bits vec_buffer pipe
        (queued two_frames none)
        (delivering [])
      ≡ (ok left, c))
    × (((left ≡ false)
          × Arrives pipe
              (Link.Read.read_frames plain_bits vec_buffer pipe)
              c.written
              (all_received Link.Receive.received (frames two_frames))
              3)
        ⊎ ((left ≡ true)
            × Failed pipe
                (Client.Write.write_one {Sender = ℕ} plain_bits vec_buffer pipe)
                (queued two_frames none)
                (delivering [])
                c))
unfolding Settings.Wire.items
link_receives_example =
    link_receives ℕ plain_bits vec_buffer pipe pipe two_frames none (delivering []) refl
      ((λ c. refl, (omega arith, inl refl)), ((λ c. refl, (omega arith, inl refl)), tt))
