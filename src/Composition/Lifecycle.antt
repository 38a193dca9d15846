-- ===== src/Composition/Lifecycle.antt =====
-- The end of a link, from its two tasks to the table of the server and the application.
use h2l.Base.{ℕ, ◌≡◌, refl, ap, ◌⊎◌, inl, inr, true, false, none, some, List, [], ◌∷◌, ◌++◌}
use h2l.Base.Outcome.{ok, err}
use h2l.Crates.Bitflags.{Bitflags}
use h2l.Crates.Channel.{Channel, TrySendError}
use h2l.Crates.BytesMut.{BytesMut}
use h2l.Crates.TcpStream.{TcpStream}
use h2l.Transaction.{Token, Link, Transaction, link_changed}
use h2l.Server.Table.{remove, get-remove_same}
use h2l.Server.Forward.{
  read_closed, write_closed, detached, Server, find_link, send, send_found, send_to,
  on_link_changed, on_transaction, forward_loop,
}
use h2l.Server.View.{send_to-SameView}
use h2l.Link.Flags.{flags, add_flags}
use h2l.Link.Write.{write_rounds, write_one, write_loop}

module _ (bits : Bitflags) where
  -- The flags of a new link after its reader has ended, and after its writer has ended too.
  abbrev pub raw_after_reader : ℕ
  raw_after_reader = add_flags bits read_closed 0

  abbrev pub raw_after_writer : ℕ
  raw_after_writer = add_flags bits write_closed raw_after_reader

  pub flags-after_reader : flags raw_after_reader ≡ 1
  unfolding flags add_flags
  flags-after_reader = rw (bits.union_bits 0 1) refl

  flags-after_writer : flags raw_after_writer ≡ 3
  unfolding flags add_flags
  flags-after_writer = rw (bits.union_bits 0 1) (rw (bits.union_bits 1 2) refl)

  pub flags-writer_first : flags (add_flags bits write_closed 0) ≡ 2
  unfolding flags add_flags
  flags-writer_first = rw (bits.union_bits 0 2) refl

  flags-reader_second : flags (add_flags bits read_closed (add_flags bits write_closed 0)) ≡ 3
  unfolding flags add_flags
  flags-reader_second = rw (bits.union_bits 0 2) (rw (bits.union_bits 2 1) refl)

-- The two flags that the tasks of a link add.
abbrev InTurn : ℕ → ℕ → Type 0
InTurn first second =
    ((first ≡ read_closed) × (second ≡ write_closed))
    ⊎ ((first ≡ write_closed) × (second ≡ read_closed))

module _ {Sender : Type 0} (bits : Bitflags) (channel : Channel Sender (Transaction Sender)) where
  open channel use {World, try_send_cases, sent}

  -- What the reading task of a link reports, where the writer is not closed.
  abbrev pub reader_report : Token → Transaction Sender
  reader_report token = link_changed (flags (raw_after_reader bits)) token

  -- What the two tasks report, one after the other.
  abbrev first_report : ℕ → Token → Transaction Sender
  first_report first token = link_changed (flags (add_flags bits first 0)) token

  abbrev second_report : ℕ → ℕ → Token → Transaction Sender
  second_report first second token =
      link_changed (flags (add_flags bits second (add_flags bits first 0))) token

  module _ (f : Transaction Sender → World → World) where
    -- The report of a reader that ended, for a link of the table: the server puts it into the channel
    -- of that link, and the write loop of a link that receives it ends there and writes nothing of what
    -- comes behind it; or the channel refused it then. The table and the calls of the closure stay as
    -- they are.
    pub writer_told :
        (buf : BytesMut) (tcp : TcpStream) (token : Token) (link : Link Sender)
        (s : Server bits channel) (reading : tcp.Conn → tcp.Conn)
        (later : List ((tcp.Conn → tcp.Conn) × Transaction Sender)) (c : tcp.Conn)
        → find_link bits channel token s ≡ some link
        → (w : World) × (on_transaction bits channel f (reader_report token) s
            ≡ (ok false, record s { world = w }))
          × (((sent w link.outgoing_tx
                  ≡ sent s.world link.outgoing_tx ++ (reader_report token ∷ []))
                × (write_loop bits buf tcp ((reading, reader_report token) ∷ later) c
                    ≡ (ok true, reading c)))
              ⊎ ((e : TrySendError) × (channel.try_send link.outgoing_tx
                      (reader_report token)
                      s.world
                    ≡ (err e, s.world))))
    unfolding on_transaction on_link_changed send_to send_found send write_loop write_rounds
        write_one
    writer_told buf tcp token link s reading later c h =
        let ends : bits.contains 1 read_closed ≡ true = bits.contains_bits 1 1 in
        rw (flags-after_reader bits)
          (elim (try_send_cases link.outgoing_tx (link_changed 1 token) s.world) [
            | inl (w, e, q) ↦ (w, rw (h, e) refl, inl (q, rw ends refl))
            | inr (e, q) ↦ (s.world, rw (h, q) refl, inr (e, q))
          ])

    -- A link whose two tasks end one after the other, the reader or the writer first, with whatever other
    -- tasks do to the channels in between: when the server has received the two reports, the link is not
    -- in the table, and the application was told DETACHED exactly once.
    closed_link_detached :
        (first second : ℕ) (token : Token) (others : World → World) (s : Server bits channel)
        → InTurn first second
        → (s' : Server bits channel) × (forward_loop bits channel f
              ((λ w. w, first_report first token) ∷ (others, second_report first second token) ∷ [])
              s
            ≡ (ok tt, s'))
          × (find_link bits channel token s' ≡ none)
          × (s'.calls ≡ s.calls ++ (link_changed detached token ∷ []))
    unfolding forward_loop on_transaction on_link_changed find_link
    closed_link_detached first second token others s turn = elim turn [
      | inl (e, e') ↦
          rw (e, e')
            (rw (flags-after_reader bits, flags-after_writer bits)
              (let s1 = (send_to bits channel token (link_changed 1 token) s).1 in
                let same = send_to-SameView bits channel token (link_changed 1 token) s in
                (
                  record {
                    links = remove s1.links token;
                    world = f (link_changed detached token) (others s1.world);
                    calls = s1.calls ++ (link_changed detached token ∷ []);
                  },
                  refl,
                  get-remove_same s1.links token,
                  ap (λ (l : List (Transaction Sender)). l ++ (link_changed detached token ∷ []))
                      same.1,
                )))
      | inr (e, e') ↦
          rw (e, e')
            (rw (flags-writer_first bits, flags-reader_second bits)
              (
                record {
                  links = remove s.links token;
                  world = f (link_changed detached token) (others s.world);
                  calls = s.calls ++ (link_changed detached token ∷ []);
                },
                refl,
                get-remove_same s.links token,
                refl,
              ))
    ]
