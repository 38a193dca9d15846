-- ===== src/Tests/Deliveries.antt =====
-- The theorems on the tasks of links and clients, and on what the application of a client is told of
-- them, in memory.
use h2l.Base.{ℕ, All, some, ◌⊎◌, ◌≡◌, refl, ap, inl, List, [], ◌∷◌, ◌++◌, arith}
use h2l.Base.Outcome.{Outcome, ok}
use h2l.Crates.Bitflags.{plain_bits}
use h2l.Frame.Error.{IoError}
use h2l.Frame.Settings
use h2l.Transaction.{transactions, Transaction}
use h2l.Link
use h2l.Link.Reads.{stream_wire, all_received}
use h2l.Link.Written.{WritesAll, link_ends}
use h2l.Client
use h2l.Client.Forward.{read_closed, write_closed}
use h2l.Client.Sides.{SaysClosed}
use h2l.Client.Written.{client_ends}
use h2l.Composition.Delivery.{Delivers, forward_loop-Delivers}
use h2l.Frame.Any.{Frame}
use h2l.Link.Written.{Failed}
use h2l.Server.Forward.{find_link, send_to, send_found, send}
use h2l.Composition.Frames.{queued}
use h2l.Composition.Sending.{send_each, PutFrames}
use h2l.Composition.Arriving.{send_each-Delivers}
use h2l.Tests.Servers.{a_link, one_link}
use h2l.Tests.Memory.{vec_buffer, pipe, Pipe, delivering}
use h2l.Tests.Queues.{queues}
use h2l.Tests.Streams.{to_link, to_client}
use h2l.Tests.Applications.{two_frames}
use h2l.Tests.Clients.{OwnShared, closure, fresh}

abbrev link_alone : ℕ → Link.Task.Reporter queues → Link.Task.Reporter queues
link_alone n s = s

abbrev open_link : Link.Task.Reporter queues
open_link = record { raw_flags = 0; world = λ tx. []; sends = [] }

write_task-Reports_example :
    WritesAll pipe
      (Link.Write.write_loop plain_bits vec_buffer pipe)
      (Link.Write.write_one plain_bits vec_buffer pipe)
      (link_ends plain_bits vec_buffer pipe)
      to_link
      (delivering [])
    × Link.Tasks.Reports queues 5 Link.Tasks.SaysWritten
        (Link.Write.write_loop plain_bits vec_buffer pipe to_link (delivering [])).0
        []
        (Link.Task.write_task plain_bits queues 9 5 link_alone vec_buffer pipe to_link
          (delivering [])
          open_link)
unfolding Settings.Wire.items
write_task-Reports_example =
    Link.Tasks.write_task-Reports queues plain_bits 9 5 link_alone vec_buffer pipe to_link
      (delivering []) open_link (λ n s h. h) (λ n s h. h)
      ((λ c. refl, tt), ((λ c. refl, omega arith), ((λ c. refl, tt), ((λ c. refl, tt), tt))))
      (inl refl)

abbrev pub alone : ℕ → Client.Task.Worker queues → Client.Task.Worker queues
alone n s = s

-- HANDSHAKED, on the descriptor 7.
abbrev pub connected : Client.Task.Worker queues
connected = record { raw_flags = 4; raw_token = 7; outgoing = []; world = λ tx. []; sends = [] }

abbrev shutdown : Pipe → Outcome IoError (Unit {0})
shutdown c = ok tt

abbrev link_bytes : Pipe
link_bytes = delivering (stream_wire two_frames ++ (0 ∷ []))

read_task-Sends_client_example :
    Client.Tasks.Sends plain_bits queues 7
      (SaysClosed plain_bits read_closed)
      shutdown
      (Client.Read.read_frames plain_bits vec_buffer pipe 3 link_bytes)
      connected
      (Client.Task.read_task plain_bits queues 9 alone vec_buffer pipe shutdown 3 link_bytes
        connected)
read_task-Sends_client_example =
    Client.Tasks.read_task-Sends_client plain_bits queues 9 7 alone (λ n s h. h) vec_buffer pipe
      shutdown 3 link_bytes connected (λ n s h. h) (refl, refl)

write_task-Reports_client_example :
    WritesAll pipe
      (Client.Write.write_loop plain_bits vec_buffer pipe)
      (Client.Write.write_one plain_bits vec_buffer pipe)
      (client_ends plain_bits vec_buffer pipe)
      to_client
      (delivering [])
    × Client.Tasks.Reports plain_bits queues 7
        (SaysClosed plain_bits write_closed)
        (Client.Write.write_loop plain_bits vec_buffer pipe to_client (delivering [])).0
        []
        (Client.Task.write_task plain_bits queues 9 alone vec_buffer pipe to_client
          (delivering [])
          connected)
unfolding Settings.Wire.items
write_task-Reports_client_example =
    Client.Tasks.write_task-Reports_client plain_bits queues 9 7 alone (λ n s h. h) vec_buffer pipe
      to_client (delivering []) connected (λ n s h. h)
      ((λ c. refl, omega arith), ((λ c. refl, tt), ((λ c. refl, tt), tt))) (refl, refl)

abbrev received_alone : List (Transaction ℕ) → List ((OwnShared → OwnShared) × Transaction ℕ)
received_alone [] = []
received_alone (tr ∷ rest) = ((λ s. s), tr) ∷ received_alone rest

transactions-received_alone : (xs : List (Transaction ℕ)) → transactions (received_alone xs) ≡ xs
transactions-received_alone [] = refl
transactions-received_alone (tr ∷ rest) =
    ap (λ (l : List (Transaction ℕ)). tr ∷ l) (transactions-received_alone rest)

abbrev sent_by_task : List (Transaction ℕ)
sent_by_task =
    (Client.Task.read_task plain_bits queues 9 alone vec_buffer pipe shutdown 3 link_bytes
      connected).1.sends

two_frames-IsReadable : All Client.Receive.IsReadable two_frames
two_frames-IsReadable = (
  (
    (record { flags_byte = omega arith; stream_31 = omega arith }, omega arith),
    (omega arith, omega arith, refl, inl (refl, refl)),
  ),
  (
    (
      (record { flags_byte = omega arith; stream_31 = omega arith }, omega arith),
      (omega arith, omega arith, refl, inl (refl, refl)),
    ),
    tt,
  ),
)

forward_loop-Delivers_example :
    Delivers plain_bits queues closure 7
      (all_received Client.Receive.received two_frames)
      (Client.Task.read_task plain_bits queues 9 alone vec_buffer pipe shutdown 3 link_bytes
        connected).0
      (received_alone sent_by_task)
      fresh
forward_loop-Delivers_example =
    forward_loop-Delivers plain_bits queues closure vec_buffer pipe shutdown 9 7 alone 3 two_frames
      link_bytes (0 ∷ []) connected (received_alone sent_by_task) fresh two_frames-IsReadable refl
      (omega arith) (omega arith) (λ n s h. h) (λ n s h. h) (refl, refl) refl
      (transactions-received_alone sent_by_task)

abbrev queued_alone : List Frame → List ((Pipe → Pipe) × Frame)
queued_alone [] = []
queued_alone (f ∷ rest) = ((λ c. c), f) ∷ queued_alone rest

-- What the write loop of the link receives, the bytes that it writes, and what the client sends on.
abbrev taken : List ((Pipe → Pipe) × Frame)
taken = queued_alone two_frames

abbrev far_bytes : Pipe
far_bytes =
    delivering
      (Link.Write.write_loop {Sender = ℕ} plain_bits vec_buffer pipe (queued taken (some 5))
        (delivering [])).1.written

abbrev sent_on : List (Transaction ℕ)
sent_on =
    (Client.Task.read_task plain_bits queues 9 alone vec_buffer pipe shutdown 3 far_bytes
      connected).1.sends

send_each-Delivers_example :
    (first : List Frame) × PutFrames plain_bits queues 5 a_link two_frames one_link
      (send_each plain_bits queues 5 two_frames one_link)
      first
    × (Delivers plain_bits queues closure 7
          (all_received Client.Receive.received ([] ++ first))
          (Client.Task.read_task plain_bits queues 9 alone vec_buffer pipe shutdown 3 far_bytes
            connected).0
          (received_alone sent_on)
          fresh
        ⊎ Failed pipe
            (Link.Write.write_one {Sender = ℕ} plain_bits vec_buffer pipe)
            (queued taken (some 5))
            (delivering [])
            (Link.Write.write_loop {Sender = ℕ} plain_bits vec_buffer pipe
              (queued taken (some 5))
              (delivering [])).1)
unfolding find_link send_to send_found send
send_each-Delivers_example =
    send_each-Delivers plain_bits queues vec_buffer pipe pipe closure 5 a_link [] two_frames
      one_link taken (delivering []) shutdown 9 7 alone 3 far_bytes connected
      (received_alone sent_on) fresh refl refl two_frames-IsReadable refl refl
      (λ c. refl, (λ c. refl, tt)) refl (omega arith) (λ n s h. h) (λ n s h. h) (refl, refl) refl
      (transactions-received_alone sent_on)
