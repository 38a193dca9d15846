-- ===== src/Client/Announced.antt =====
-- client.rs: what `mantain_loop` may send, and its mark on the flags of the client.
use h2l.Base.{
  append_assoc, if◌then◌else◌, ℕ, ◌%◌, ◌/◌, ◌≡◌, refl, List, [], ◌∷◌, ◌++◌, Bool, true, false, some,
  arith,
}
use h2l.Base.Outcome.{Outcome, ok}
use h2l.Crates.Bitflags.{Bitflags}
use h2l.Crates.Channel.{Channel}
use h2l.Frame.Settings.{Settings}
use h2l.Frame.Any.{settings}
use h2l.Transaction.{Transaction, client_changed, frame}
use h2l.Client.Forward.{mantain_loop_exited}
use h2l.Client.Flags.{
  handshaked, reconnected, read_write_closed, is_newly_handshaked, loaded_flags, add_flags,
  remove_flags,
}
use h2l.Client.Marks.{
  add_flags-handshaked, add_flags-reconnected, add_flags-exited, remove_flags-closed,
  contains-exited, loaded_flags-low,
}
use h2l.Client.Mantain.{new, Mantainer, Attempt}

module _ (bits : Bitflags) where
  open bits use {contains}

  -- The flags of a connection that was just opened, of a client whose loop has not ended.
  abbrev pub Opened : ℕ → Type 0
  Opened flags =
      (is_newly_handshaked bits flags ≡ true) × (contains flags mantain_loop_exited ≡ false)

  -- Flags of a connection and then SETTINGS under the same token, any number of times; the last SETTINGS
  -- may be missing.
  abbrev pub Announces : {Sender : Type 0} → List (Transaction Sender) → Type 0
  Announces [] = Unit {0}
  Announces (client_changed flags token ∷ []) = Opened flags
  Announces (client_changed flags token ∷ frame (settings v) (some token') ∷ rest) =
      Opened flags × (token ≡ token') × Announces rest
  Announces _ = ⊥

module _ {Sender : Type 0} (channel : Channel Sender (Transaction Sender)) where
  -- Neither loop is marked as ended: bits 0 and 1 are clear.
  abbrev pub Goes : Mantainer channel → Type 0
  Goes s = s.raw_flags % 4 ≡ 0

  -- And neither side of a connection is marked as closed: so are bits 3 and 4.
  abbrev pub IsFresh : Mantainer channel → Type 0
  IsFresh s = Goes s × (s.raw_flags / 8 % 4 ≡ 0)

  abbrev pub Keeps : (Mantainer channel → Mantainer channel) → Type 0
  Keeps g = (s : Mantainer channel) → Goes s → Goes (g s)

  -- Other tasks do not mark a loop as ended, and no side as closed where no connection is open.
  abbrev pub LeavesMark : {Conn : Type 0} → Attempt channel Conn → Type 0
  LeavesMark a = ((s : Mantainer channel) → IsFresh s → IsFresh (a.before s)) × Keeps a.during

module _ {Sender : Type 0} (bits : Bitflags) (channel : Channel Sender (Transaction Sender)) where
  open bits use {contains}

  -- Marked once it has ended, and not before.
  abbrev pub IsMarked : Outcome ⊥ Bool → Mantainer channel → Type 0
  IsMarked (ok true) s =
      (s.exit_loop ≡ true) × (contains (loaded_flags bits s.raw_flags) mantain_loop_exited ≡ true)
  IsMarked _ s = contains (loaded_flags bits s.raw_flags) mantain_loop_exited ≡ false

  -- What a run from the first state to the second sent.
  pub record Report (s : Mantainer channel) (r : Outcome ⊥ Bool) (s' : Mantainer channel)
      : Type 0 where
    pub new : List (Transaction Sender)
    pub sends : s'.sends ≡ s.sends ++ new
    pub announces : Announces bits new
    pub mark : IsMarked r s'

module _ (bits : Bitflags) where
  open bits use {contains, union_bits}

  pub unmarked :
      (raw : ℕ) → raw % 4 ≡ 0 → contains (loaded_flags bits raw) mantain_loop_exited ≡ false
  unmarked raw h = ground (arith, contains-exited bits raw)

  pub exited-marked :
      (raw : ℕ)
      → contains (loaded_flags bits (add_flags bits mantain_loop_exited raw)) mantain_loop_exited
        ≡ true
  exited-marked raw =
      rw (contains-exited bits (add_flags bits mantain_loop_exited raw), add_flags-exited bits raw)
        (ground arith)

  pub handshaked-going : (raw : ℕ) → raw % 4 ≡ 0 → add_flags bits handshaked raw % 4 ≡ 0
  handshaked-going raw h = rw (add_flags-handshaked bits raw) (omega arith)

  -- Behind a connection no side is marked any more, also where RECONNECTED is added.
  pub closed-fresh :
      (raw : ℕ)
      → raw % 4 ≡ 0
      → (remove_flags bits read_write_closed raw % 4 ≡ 0)
        × (remove_flags bits read_write_closed raw / 8 % 4 ≡ 0)
  closed-fresh raw h = rw (remove_flags-closed bits raw) (omega arith, omega arith)

  pub reconnected-fresh :
      (raw : ℕ)
      → raw % 4 ≡ 0
      → raw / 8 % 4 ≡ 0
      → (add_flags bits reconnected raw % 4 ≡ 0) × (add_flags bits reconnected raw / 8 % 4 ≡ 0)
  reconnected-fresh raw h h' = rw (add_flags-reconnected bits raw) (omega arith, omega arith)

  pub handshaked-Opened :
      (raw : ℕ)
      → raw % 4 ≡ 0
      → raw / 8 % 4 ≡ 0
      → Opened bits (loaded_flags bits (add_flags bits handshaked raw))
  unfolding is_newly_handshaked
  handshaked-Opened raw h h' = (
    rw
        (
          loaded_flags-low bits (add_flags bits handshaked raw),
          add_flags-handshaked bits raw,
          union_bits handshaked reconnected,
        )
        (ground arith),
    unmarked (add_flags bits handshaked raw) (handshaked-going raw h),
  )

module _ {Sender : Type 0} (channel : Channel Sender (Transaction Sender)) where
  -- A client that was just made is fresh.
  pub new-IsFresh :
      {Address : Type 0} (addrs : List Address) (w : channel.World) (s : Mantainer channel)
      → new channel (ok addrs) w ≡ ok s
      → IsFresh channel s
  unfolding new
  new-IsFresh addrs w s h = let flags : 0 ≡ s.raw_flags = cc h in rw (← flags) (refl, refl)

module _ {Sender : Type 0} (bits : Bitflags) (channel : Channel Sender (Transaction Sender)) where
  -- What follows a step that sent nothing, or the two transactions of a connection.
  pub later-Report :
      (s s1 s' : Mantainer channel) (r : Outcome ⊥ Bool)
      → s1.sends ≡ s.sends
      → Report bits channel s1 r s'
      → Report bits channel s r s'
  later-Report s s1 s' r e h = record {
    new = h.new;
    sends = simp (h.sends, e);
    announces = h.announces;
    mark = h.mark;
  }

  pub pair-Report :
      (s s1 s' : Mantainer channel) (r : Outcome ⊥ Bool) (flags token : ℕ) (v : Settings)
      → s1.sends
        ≡ (s.sends ++ (client_changed flags token ∷ [])) ++ (frame (settings v) (some token) ∷ [])
      → Opened bits flags
      → Report bits channel s1 r s'
      → Report bits channel s r s'
  pair-Report s s1 s' r flags token v e o h = record {
    new = client_changed flags token ∷ frame (settings v) (some token) ∷ h.new;
    sends = simp (h.sends, e, append_assoc);
    announces = (o, refl, h.announces);
    mark = h.mark;
  }

  pub choose-Report :
      (b : Bool) (s : Mantainer channel) (m k : Outcome ⊥ Bool × Mantainer channel)
      → Report bits channel s m.0 m.1
      → Report bits channel s k.0 k.1
      → Report bits channel s (if b then m else k).0 (if b then m else k).1
  choose-Report true s m k h h' = h
  choose-Report false s m k h h' = h'
