-- ===== src/Transaction.antt =====
-- transaction.rs and token.rs: what the loops, the links and the application send each other; and
-- of link.rs the part of a link that a transaction carries.
use h2l.Base.{ℕ, List, [], ◌∷◌, Option, none}
use h2l.Base.Outcome.{Outcome, map}
use h2l.Frame.Error.{Error}
use h2l.Frame.StreamId.{StreamId}
use h2l.Frame.Any.{Frame, with_data}

abbrev pub Token : Type 0
Token = ℕ

-- `socket` is the descriptor of the stream.
pub record Link (Sender : Type 0) : Type 0 where
  pub socket : ℕ
  pub outgoing_tx : Sender

-- The flags are the bits of `ClientFlags`, `LinkFlags` and `ServerFlags`.
pub data Transaction (Sender : Type 0) : Type 0 where
  bytes : List ℕ → Option Token → Transaction Sender
  frame : Frame → Option Token → Transaction Sender
  client_changed : ℕ → Token → Transaction Sender
  link_changed : ℕ → Token → Transaction Sender
  new_link : Link Sender → Transaction Sender
  server_changed : ℕ → Transaction Sender

module _ {Sender : Type 0} where
  unfoldable pub with_data_frame :
      StreamId → List ℕ → Option Token → Outcome Error (Transaction Sender)
  with_data_frame stream_id payload token = map (λ f. frame f token) (with_data stream_id payload)

  -- The `From` instances.
  unfoldable pub from_link : Link Sender → Transaction Sender
  from_link val = new_link val

  unfoldable pub from_bytes : List ℕ → Transaction Sender
  from_bytes val = bytes val none

  unfoldable pub token_of : Link Sender → Token
  token_of link = link.socket

  -- The transactions of a list, each of which comes with what other tasks did before.
  abbrev pub transactions {ℓ} :
      {A : Type ℓ} → List (A × Transaction Sender) → List (Transaction Sender)
  transactions [] = []
  transactions ((others, tr) ∷ rest) = tr ∷ transactions rest
