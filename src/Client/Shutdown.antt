-- ===== src/Client/Shutdown.antt =====
-- client.rs: a shutdown ends `mantain_loop`.
use h2l.Base.{
  ◌≡◌, refl, inl, inr, List, [], ◌∷◌, ◌++◌, Bool, true, false, if◌then◌else◌, Bool-cases,
}
use h2l.Base.Outcome.{Outcome, ok, err, panic}
use h2l.Base.Exec.{Exec, continue, ◌>>=◌}
use h2l.Crates.Bitflags.{Bitflags}
use h2l.Crates.BytesMut.{BytesMut}
use h2l.Crates.Channel.{Channel}
use h2l.Crates.TcpStream.{TcpStream}
use h2l.Transaction.{Transaction}
use h2l.Client.Mantain.{Mantainer, Attempt, attempt, leave, mantain_loop, by_others}

module _ {Sender : Type 0} (bits : Bitflags) (buf : BytesMut) (tcp : TcpStream)
    (channel : Channel Sender (Transaction Sender)) (incoming_tx : Sender)
    (auto_reconnect : Bool) where
  open tcp use {Conn}

  -- The run is over: behind the loop, or by a panic.
  abbrev pub IsOver : Outcome ⊥ Bool → Type 0
  IsOver (ok b) = b ≡ true
  IsOver (err e) = ⊥
  IsOver panic = Unit {0}

  leave-IsOver :
      (s : Mantainer channel) → IsOver (leave bits buf tcp channel incoming_tx auto_reconnect s).0
  unfolding leave
  leave-IsOver s = refl

  broken-IsOver :
      (m : Exec (Mantainer channel) ⊥ Bool) (rest : Exec (Mantainer channel) ⊥ Bool)
      → ((s : Mantainer channel) → IsOver (rest s).0)
      → (s : Mantainer channel)
      → IsOver
          ((m >>= λ broken.
              if broken then leave bits buf tcp channel incoming_tx auto_reconnect else rest)
            s).0
  broken-IsOver m rest again s = after (m s).0 (m s).1
    where
      after :
          (r : Outcome ⊥ Bool) (s' : Mantainer channel)
          → IsOver
              (continue r
                (λ broken.
                  if broken then leave bits buf tcp channel incoming_tx auto_reconnect else rest)
                s').0
      after (ok true) s' = leave-IsOver s'
      after (ok false) s' = again s'
      after (err e) s' = e
      after panic s' = tt

  -- However the attempts before went and whatever follows, a loop that finds `exit_loop` set by the
  -- other tasks before some attempt is over at the latest there, behind the loop or by a panic.
  pub mantain_loop-IsOver :
      (before rest : List (Attempt channel Conn)) (a : Attempt channel Conn)
      → ((s : Mantainer channel) → (a.before s).exit_loop ≡ true)
      → (s : Mantainer channel)
      → IsOver
          (mantain_loop bits buf tcp channel incoming_tx auto_reconnect (before ++ a ∷ rest) s).0
  unfolding mantain_loop
  mantain_loop-IsOver [] rest a shut s = rw (shut s) (leave-IsOver _)
  mantain_loop-IsOver (b ∷ before) rest a shut s =
      let s1 = (by_others channel b.before s).1 in
      elim (Bool-cases s1.exit_loop) [
        | inl e ↦ rw e (leave-IsOver _)
        | inr e ↦ rw e (
            broken-IsOver
              (attempt bits buf tcp channel incoming_tx auto_reconnect b.connecting b.during) _
              (mantain_loop-IsOver before rest a shut) _)
      ]
