-- ===== src/Composition/Greeting.antt =====
-- How a client and a server open a connection, from the preface of the client to the settings that it
-- takes from the server.
use h2l.Base.{
  Bool, true, ℕ, ◌≡◌, refl, ◌∙◌, ◌⊎◌, inl, inr, false, some, List, [], ◌∷◌, ◌++◌, append-nil,
  append_assoc, arith,
}
use h2l.Base.Outcome.{ok}
use h2l.Consts.{http_2_0_preface, http_2_0_settings}
use h2l.Crates.Bitflags.{Bitflags}
use h2l.Crates.BytesMut.{BytesMut}
use h2l.Crates.Channel.{Channel}
use h2l.Crates.Httparse.{Httparse}
use h2l.Crates.TcpStream.{TcpStream}
use h2l.Frame.Settings
use h2l.Frame.Any.{settings}
use h2l.Frame.Any.Wire.{frame_wire, IsSendable}
use h2l.Transaction.{Token, Link, Transaction, frame}
use h2l.Server.Forward.{Server, find_link, on_transaction}
use h2l.Server.Reply.{Answers, on_transaction-settings_reply}
use h2l.Link.Read.{broken}
use h2l.Link.Handshake.{read_loop}
use h2l.Link.Write.{write_one, write_loop}
use h2l.Link.Written.{KeepsWritten, Failed, write_loop-WritesAll}
use h2l.Client.Handshake.{handshake}
use h2l.Client.Opening.{OpeningFails, handshake-settings}
use h2l.Composition.Opening.{opening_settings, read_loop-opening}

opening-IsSendable : IsSendable (settings opening_settings)
unfolding Settings.Wire.items Settings.setting_value
opening-IsSendable = omega arith

opening-IsValid : Settings.Load.IsValid opening_settings
opening-IsValid = record {
  flags_clear = refl;
  push_bit = omega arith;
  window_31 = omega arith;
  frame_size_24 = tt;
}

ack-IsSendable : IsSendable (settings Settings.ack)
unfolding Settings.Wire.items
ack-IsSendable = omega arith

module _ (bits : Bitflags) where
  pub not_ack : Settings.is_ack bits opening_settings.flags ≡ false
  not_ack = rw (bits.intersects_bits 0 1) refl

module _ {Sender : Type 0} (token : Token) where
  -- What the server sends to the link of a client that opened.
  abbrev pub reply : List (Transaction Sender)
  reply =
      frame (settings opening_settings) (some token)
      ∷ frame (settings Settings.ack) (some token)
      ∷ []

  -- The same, each behind what the reading task of the link did to the connection.
  abbrev pub replied : {C : Type 0} → (C → C) → (C → C) → List ((C → C) × Transaction Sender)
  replied before between =
      (before, frame (settings opening_settings) (some token))
      ∷ (between, frame (settings Settings.ack) (some token))
      ∷ []

module _ {Sender : Type 0} (bits : Bitflags) (buf : BytesMut) (http : Httparse)
    (channel : Channel Sender (Transaction Sender)) (near far : TcpStream)
    (f : Transaction Sender → channel.World → channel.World) where
  -- The client takes the settings from what the link wrote.
  abbrev pub Greets : List ℕ → near.Conn → List ℕ → Type 0
  Greets ws c rest =
      near.incoming c ≡ ws ++ rest
      → ((c' : near.Conn) × (handshake bits buf near c ≡ (ok opening_settings, c'))
          × (near.incoming c' ≡ frame_wire (settings Settings.ack) ++ rest)
          × (near.written c' ≡ near.written c ++ http_2_0_preface ++ http_2_0_settings))
        ⊎ OpeningFails bits buf near c

  -- A link whose stream delivers what the handshake of a client writes, the preface and the opening
  -- settings, sends exactly these settings on. The server puts them and an ACK into the channel of the
  -- link, or the channel refused one of them and the forward loop panics. The write loop of the link
  -- writes what was put there, while the reading task does not write, or the connection failed; and to a
  -- client whose stream delivers those bytes, with anything behind them, the handshake gives the opening
  -- settings, and leaves the ACK and what is behind it to the read loop, or its connection failed.
  pub handshake-opening_settings :
      (token : Token) (link : Link Sender) (s : Server bits channel) (d e : far.Conn)
      (before between : far.Conn → far.Conn)
      → far.incoming d ≡ http_2_0_preface ++ http_2_0_settings
      → find_link bits channel token s ≡ some link
      → far.written e ≡ []
      → KeepsWritten far before
      → KeepsWritten far between
      → ((d' : far.Conn) × (read_loop bits buf http far 2 d
            ≡ (settings opening_settings ∷ [], (broken, d'))))
        × Answers bits channel
            (on_transaction bits channel f (frame (settings opening_settings) (some token)))
            false
            link
            (reply token)
            s
        × ((e' : far.Conn) × (left : Bool) × (write_loop bits buf far
                (replied {Sender = Sender} token before between)
                e
              ≡ (ok left, e'))
            × (((left ≡ false) × ((c : near.Conn) (rest : List ℕ) → Greets (far.written e') c rest))
                ⊎ ((left ≡ true)
                    × Failed far
                        (write_one bits buf far)
                        (replied {Sender = Sender} token before between)
                        e
                        e')))
  handshake-opening_settings token link s d e before between hd h he kb kt =
      let (e', left, q, w) =
        write_loop-WritesAll bits buf far (replied {Sender = Sender} token before between) e
          ((kb, opening-IsSendable), ((kt, ack-IsSendable), tt)) in
      (
        read_loop-opening bits buf http far 1 [] d [] tt hd (omega arith) (omega arith),
        on_transaction-settings_reply bits channel f opening_settings token link s (not_ack bits) h,
        (
          e',
          left,
          q,
          elim w [
            | inr p ↦ inr p
            | inl (t, p) ↦ inl (
              t,
              λ c rest i.
                  handshake-settings bits buf near c opening_settings
                    (frame_wire (settings Settings.ack) ++ rest) opening-IsSendable
                    (inr opening-IsValid) (i ∙ simp (p, he, append_assoc, append-nil)),
            )
          ],
        ),
      )
