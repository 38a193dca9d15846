-- ===== src/Tests/Mantainers.antt =====
-- The theorems on the mantain loop of a client, with connections and channels in memory.
use h2l.Base.{refl, [], ◌∷◌, ◌++◌, true, false}
use h2l.Crates.Bitflags.{plain_bits}
use h2l.Frame.Settings
use h2l.Frame.Any.{settings}
use h2l.Frame.Any.Wire.{frame_wire}
use h2l.Client.Mantain.{Mantainer, Attempt, connected, refused, shutdown, mantain_loop}
use h2l.Client.Flags.{add_flags, read_write_closed}
use h2l.Client.Shutdown.{IsOver, mantain_loop-IsOver}
use h2l.Tests.Memory.{vec_buffer, pipe, Pipe, delivering}
use h2l.Tests.Queues.{queues}

abbrev same : Mantainer queues → Mantainer queues
same s = s

abbrev start : Mantainer queues
start = record { exit_loop = false; raw_flags = 0; raw_token = 0; world = λ tx. []; sends = [] }

-- Both sides of the connection are marked as closed.
abbrev both_close : Mantainer queues → Mantainer queues
both_close s = record s { raw_flags = add_flags plain_bits read_write_closed s.raw_flags }

-- A connection that opens under the descriptor 9.
abbrev open_one : Attempt queues Pipe
open_one = record {
  before = same;
  connecting = connected (delivering (frame_wire (settings Settings.ack))) 9;
  during = both_close;
}

abbrev refused_one : Attempt queues Pipe
refused_one = record { before = same; connecting = refused; during = same }

abbrev shut_down : Attempt queues Pipe
shut_down = record { before = shutdown queues; connecting = refused; during = same }

mantain_loop-IsOver_example :
    IsOver plain_bits vec_buffer pipe queues 0 true
      (mantain_loop plain_bits vec_buffer pipe queues 0 true
        ((refused_one ∷ open_one ∷ []) ++ shut_down ∷ [])
        start).0
unfolding shutdown
mantain_loop-IsOver_example =
    mantain_loop-IsOver plain_bits vec_buffer pipe queues 0 true (refused_one ∷ open_one ∷ []) []
      shut_down (λ s. refl) start
