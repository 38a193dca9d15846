-- ===== src/Server/Accepted.antt =====
-- What the accept loop of the server sends to the forward loop.
use h2l.Base.{
  ◌≡◌, refl, sym, List, [], ◌∷◌, ◌++◌, append-nil, append_assoc, Bool, true, false, if◌then◌else◌,
}
use h2l.Base.Outcome.{ok, err}
use h2l.Crates.Channel.{Channel}
use h2l.Frame.Error.{IoError}
use h2l.Transaction.{Link, Transaction, new_link, server_changed}
use h2l.Server.Forward.{accept_loop_exited}
use h2l.Server.Accept.{
  Incoming, arrived, failed, ended, timed_out, Acceptor, send_trans, accept_all, leave, accept_loop,
}

module _ {Sender : Type 0} where
  -- What ends the listening.
  abbrev pub stops : Incoming Sender → Bool
  stops (arrived socket tx) = false
  stops (failed e) = true
  stops ended = true
  stops (timed_out exit) = exit

module _ {Sender : Type 0} {W : Type 0} where
  -- The connections that arrive before that.
  abbrev pub arrivals : List (W × Incoming Sender) → List (Link Sender)
  arrivals [] = []
  arrivals ((others, arrived socket tx) ∷ rest) =
      record { socket = socket; outgoing_tx = tx } ∷ arrivals rest
  arrivals ((others, x) ∷ rest) = let more = arrivals rest in if stops x then [] else more

  abbrev pub is_stopped : List (W × Incoming Sender) → Bool
  is_stopped [] = false
  is_stopped ((others, x) ∷ rest) = let more = is_stopped rest in if stops x then true else more

module _ {Sender : Type 0} where
  abbrev pub new_links : List (Link Sender) → List (Transaction Sender)
  new_links [] = []
  new_links (link ∷ rest) = new_link link ∷ new_links rest

  -- The last transaction, of a loop that has ended.
  abbrev pub last_word : Bool → List (Transaction Sender)
  last_word true = server_changed accept_loop_exited ∷ []
  last_word false = []

module _ {Sender : Type 0} (channel : Channel Sender (Transaction Sender)) (trans_tx : Sender) where
  open channel use {World}

  accept_all-new_links :
      (incoming : List ((World → World) × Incoming Sender)) (s : Acceptor channel trans_tx)
      → (s' : Acceptor channel trans_tx) × (accept_all channel trans_tx incoming s
          ≡ (ok (is_stopped incoming), s'))
        × (s'.sends ≡ s.sends ++ new_links (arrivals incoming))
  unfolding accept_all send_trans
  accept_all-new_links [] s = (s, refl, sym (append-nil s.sends))
  accept_all-new_links ((others, arrived socket tx) ∷ rest) s =
      let (s', e, c) = accept_all-new_links rest _ in (s', e, simp (c, append_assoc))
  accept_all-new_links ((others, failed x) ∷ rest) s = (_, refl, sym (append-nil s.sends))
  accept_all-new_links ((others, ended) ∷ rest) s = (_, refl, sym (append-nil s.sends))
  accept_all-new_links ((others, timed_out true) ∷ rest) s = (_, refl, sym (append-nil s.sends))
  accept_all-new_links ((others, timed_out false) ∷ rest) s = accept_all-new_links rest _

  leave-last_word :
      (b : Bool) (s : Acceptor channel trans_tx)
      → (s' : Acceptor channel trans_tx) × (leave channel trans_tx b s ≡ (ok b, s'))
        × (s'.sends ≡ s.sends ++ last_word b)
  unfolding leave send_trans
  leave-last_word true s = (_, refl, refl)
  leave-last_word false s = (s, refl, sym (append-nil s.sends))

  -- With a listener that is bound, the accept loop neither fails nor panics, whatever the other tasks
  -- do and even where sending fails: it sends a NewLink for each connection that arrived before the
  -- first error, end or timeout that finds the exit flag set, in their order, and then, exactly if
  -- there is such an end, one ACCEPT_LOOP_EXITED. With one that is not, it returns the error and has
  -- sent nothing.
  pub accept_loop-new_links :
      (incoming : List ((World → World) × Incoming Sender)) (s : Acceptor channel trans_tx)
      → ((s' : Acceptor channel trans_tx) × (accept_loop channel trans_tx (ok tt) incoming s
            ≡ (ok (is_stopped incoming), s'))
          × (s'.sends
              ≡ s.sends ++ new_links (arrivals incoming) ++ last_word (is_stopped incoming)))
        × ((e : IoError) → accept_loop channel trans_tx (err e) incoming s ≡ (err e, s))
  unfolding accept_loop
  accept_loop-new_links incoming s =
      let (s', e, c) = accept_all-new_links incoming s in
      let (s'', e', c') = leave-last_word (is_stopped incoming) s' in
      ((s'', rw e e', simp (c', c, append_assoc)), λ x. refl)
