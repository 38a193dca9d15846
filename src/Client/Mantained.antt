-- ===== src/Client/Mantained.antt =====
-- client.rs: what `mantain_loop` sends to the forward loop, and how it ends.
use h2l.Base.{
  ℕ, ◌≡◌, refl, sym, ◌⊎◌, inl, inr, List, [], ◌∷◌, append-nil, append_assoc, Bool, true, false, All,
  Bool-cases, if◌then◌else◌, some,
}
use h2l.Base.Outcome.{Outcome, ok, err, panic}
use h2l.Base.Exec.{Exec, ◌>>=◌}
use h2l.Crates.Bitflags.{Bitflags}
use h2l.Crates.BytesMut.{BytesMut}
use h2l.Crates.Channel.{Channel, SendError}
use h2l.Crates.TcpStream.{TcpStream}
use h2l.Frame.Settings.{Settings}
use h2l.Frame.Any.{settings}
use h2l.Transaction.{Transaction, client_changed, frame}
use h2l.Client.Flags.{
  handshaked, reconnected, read_write_closed, loaded_flags, add_flags, remove_flags,
}
use h2l.Client.Handshake.{HandshakeError, handshake}
use h2l.Client.Mantain.{
  Mantainer, Connecting, connected, refused, timed_out, Attempt, unwrapped, send_incoming, announce,
  settle, after_handshake, attempt, leave, mantain_loop, by_others,
}
use h2l.Client.Announced.{
  Goes, IsFresh, Keeps, LeavesMark, Report, later-Report, pair-Report, choose-Report,
  handshaked-Opened, handshaked-going, unmarked, closed-fresh, reconnected-fresh, exited-marked,
}

unwrapped-cases : (o : Outcome SendError (Unit {0})) → (unwrapped o ≡ ok tt) ⊎ (unwrapped o ≡ panic)
unwrapped-cases (ok a) = inl refl
unwrapped-cases (err e) = inr refl
unwrapped-cases panic = inr refl

module _ {Sender : Type 0} (bits : Bitflags) (buf : BytesMut) (tcp : TcpStream)
    (channel : Channel Sender (Transaction Sender)) (incoming_tx : Sender)
    (auto_reconnect : Bool) where
  open bits use {contains}
  open tcp use {Conn}

  leave-Report :
      (s : Mantainer channel)
      → Report bits channel s
          (leave bits buf tcp channel incoming_tx auto_reconnect s).0
          (leave bits buf tcp channel incoming_tx auto_reconnect s).1
  unfolding leave
  leave-Report s = record {
    new = [];
    sends = sym (append-nil s.sends);
    announces = tt;
    mark = (refl, exited-marked bits s.raw_flags);
  }

  module _ (next : Bool → Exec (Mantainer channel) ⊥ Bool)
      (next-Report : (b : Bool) (s : Mantainer channel)
        → IsFresh channel s
        → Report bits channel s (next b s).0 (next b s).1) where
    settle-Report :
        (s : Mantainer channel)
        → Goes channel s
        → Report bits channel s
            ((settle bits buf tcp channel incoming_tx auto_reconnect >>= next) s).0
            ((settle bits buf tcp channel incoming_tx auto_reconnect >>= next) s).1
    unfolding settle
    settle-Report s h = elim (Bool-cases auto_reconnect) [
      | inl e ↦
          elim (Bool-cases (
            contains (loaded_flags bits (remove_flags bits read_write_closed s.raw_flags))
              reconnected)) [
                | inl e' ↦
                    rw (e, e')
                      (later-Report bits channel s _ _ _ refl
                        (next-Report false _ (closed-fresh bits s.raw_flags h)))
                | inr e' ↦
                    rw (e, e')
                      (later-Report bits channel s _ _ _ refl (
                        next-Report false _ (
                          reconnected-fresh bits (remove_flags bits read_write_closed s.raw_flags)
                            (closed-fresh bits s.raw_flags h).0
                            (closed-fresh bits s.raw_flags h).1)))
              ]
      | inr e ↦ rw e (
          later-Report bits channel s _ _ _ refl
            (next-Report true _ (closed-fresh bits s.raw_flags h)))
    ]

    connected-Report :
        (fd : ℕ) (during : Mantainer channel → Mantainer channel) (peer : Settings)
        (s : Mantainer channel)
        → Keeps channel during
        → IsFresh channel s
        → Report bits channel s
            ((after_handshake bits buf tcp channel incoming_tx auto_reconnect fd during (ok peer)
                >>= next)
              s).0
            ((after_handshake bits buf tcp channel incoming_tx auto_reconnect fd during (ok peer)
                >>= next)
              s).1
    unfolding after_handshake announce send_incoming
    connected-Report fd during peer s keeps h =
        let o = handshaked-Opened bits s.raw_flags h.0 h.1 in
        let changed : Transaction Sender =
          client_changed (loaded_flags bits (add_flags bits handshaked s.raw_flags)) fd in
        let sent1 = channel.send incoming_tx changed s.world in
        let sent2 = channel.send incoming_tx (frame (settings peer) (some fd)) sent1.1 in
        elim (unwrapped-cases sent1.0) [
          | inr e ↦ rw e (record { new = changed ∷ []; sends = refl; announces = o; mark = o.1 })
          | inl e ↦ elim (unwrapped-cases sent2.0) [
            | inr e' ↦
                rw (e, e')
                  (record {
                    new = changed ∷ frame (settings peer) (some fd) ∷ [];
                    sends =
                        append_assoc s.sends (changed ∷ []) (frame (settings peer) (some fd) ∷ []);
                    announces = (o, refl, tt);
                    mark = o.1;
                  })
            | inl e' ↦
                rw (e, e')
                  (pair-Report bits channel s _ _ _ _ fd peer refl o
                    (settle-Report _ (keeps _ (handshaked-going bits s.raw_flags h.0))))
          ]
        ]

    attempt-Report :
        (c : Connecting Conn) (during : Mantainer channel → Mantainer channel)
        (s : Mantainer channel)
        → Keeps channel during
        → IsFresh channel s
        → Report bits channel s
            ((attempt bits buf tcp channel incoming_tx auto_reconnect c during >>= next) s).0
            ((attempt bits buf tcp channel incoming_tx auto_reconnect c during >>= next) s).1
    unfolding attempt after_handshake
    attempt-Report refused during s keeps h = next-Report false s h
    attempt-Report timed_out during s keeps h = next-Report false s h
    attempt-Report (connected c fd) during s keeps h = opened (handshake bits buf tcp c).0
      where
        opened :
            (r : Outcome HandshakeError Settings)
            → Report bits channel s
                ((after_handshake bits buf tcp channel incoming_tx auto_reconnect fd during r
                    >>= next)
                  s).0
                ((after_handshake bits buf tcp channel incoming_tx auto_reconnect fd during r
                    >>= next)
                  s).1
        opened (ok peer) = connected-Report fd during peer s keeps h
        opened (err e) = next-Report true s h
        opened panic = record {
          new = [];
          sends = sym (append-nil s.sends);
          announces = tt;
          mark = unmarked bits s.raw_flags h.0;
        }

  -- Of a client without a mark of an ended loop or a closed side, where other tasks set none before a
  -- connection opens: what the loop sends, also in a run that panics, is pairs of flags without
  -- MANTAIN_LOOP_EXITED and SETTINGS under the same token, where the last pair may lack its SETTINGS;
  -- and the client is marked with MANTAIN_LOOP_EXITED only where the loop has ended.
  pub mantain_loop-Report :
      (attempts : List (Attempt channel Conn)) (s : Mantainer channel)
      → All (LeavesMark channel) attempts
      → IsFresh channel s
      → Report bits channel s
          (mantain_loop bits buf tcp channel incoming_tx auto_reconnect attempts s).0
          (mantain_loop bits buf tcp channel incoming_tx auto_reconnect attempts s).1
  unfolding mantain_loop
  mantain_loop-Report [] s hs h =
      choose-Report bits channel s.exit_loop s _ (ok false, s) (leave-Report s)
        (record {
          new = [];
          sends = sym (append-nil s.sends);
          announces = tt;
          mark = unmarked bits s.raw_flags h.0;
        })
  mantain_loop-Report (a ∷ rest) s hs h =
      let s1 = (by_others channel a.before s).1 in
      let again = next (λ s2 h2. mantain_loop-Report rest s2 hs.1 h2) in
      later-Report bits channel s s1 _ _ refl (
        choose-Report bits channel s1.exit_loop s1 _ _ (leave-Report s1)
          (attempt-Report _ again a.connecting a.during s1 hs.0.1 (hs.0.0 s h)))
    where
      next :
          ((s2 : Mantainer channel)
            → IsFresh channel s2
            → Report bits channel s2
                (mantain_loop bits buf tcp channel incoming_tx auto_reconnect rest s2).0
                (mantain_loop bits buf tcp channel incoming_tx auto_reconnect rest s2).1)
          → (b : Bool) (s2 : Mantainer channel) → IsFresh channel s2
          → Report bits channel s2
              ((if b
                  then leave bits buf tcp channel incoming_tx auto_reconnect
                  else mantain_loop bits buf tcp channel incoming_tx auto_reconnect rest)
                s2).0
              ((if b
                  then leave bits buf tcp channel incoming_tx auto_reconnect
                  else mantain_loop bits buf tcp channel incoming_tx auto_reconnect rest)
                s2).1
      next again true s2 h2 = leave-Report s2
      next again false s2 h2 = again s2 h2
