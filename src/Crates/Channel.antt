-- ===== src/Crates/Channel.antt =====
-- The package `async-channel`: the sending ends of bounded channels, over one state of all of them.
use h2l.Base.{◌≡◌, ◌⊎◌, List, [], ◌∷◌, ◌++◌}
use h2l.Base.Outcome.{ok, err}
use h2l.Base.Exec.{Exec}

pub data TrySendError : Type 0 where
  full closed : TrySendError

-- The channel is closed.
pub data SendError : Type 0 where
  send_error : SendError

pub record Channel (Sender Message : Type 0) : Type 1 where
  pub World : Type 0
  pub try_send : Sender → Message → Exec World TrySendError (Unit {0})
  -- `send(..).await`: it waits for room, while the other tasks go on.
  pub send : Sender → Message → Exec World SendError (Unit {0})
  -- What was put into the channel so far.
  pub sent : World → Sender → List Message
  pub try_send_cases :
      (tx : Sender) (x : Message) (w : World)
      → ((w' : World) × (try_send tx x w ≡ (ok tt, w')) × (sent w' tx ≡ sent w tx ++ (x ∷ [])))
        ⊎ ((e : TrySendError) × (try_send tx x w ≡ (err e, w)))
  -- A channel does not change by what is put into another.
  pub try_send_others :
      (tx other : Sender)
      → (tx ≡ other) ⊎ ((x : Message) (w : World) → sent (try_send tx x w).1 other ≡ sent w other)
