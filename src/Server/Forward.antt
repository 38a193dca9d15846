-- ===== src/Server/Forward.antt =====
-- server.rs: `send_to` and `forward_loop`. The application's closure is a parameter: it may send to
-- any channel, so that it changes the state of the channels; its calls are recorded in order.
use h2l.Base.{
  ◌==◌, if◌then◌else◌, ℕ, Option, none, some, List, [], ◌∷◌, ◌++◌, Bool, true, false, not,
}
use h2l.Base.Outcome.{Outcome, ok, panic}
use h2l.Base.Exec.{Exec, pure, raise, convert, ◌>>=◌, ◌>>◌}
use h2l.Crates.Bitflags.{Bitflags}
use h2l.Crates.Channel.{Channel, TrySendError}
use h2l.Frame.Error.{IoError}
use h2l.Frame.Settings
use h2l.Frame.Settings.{Settings}
use h2l.Frame.Any.{Frame, data_frame, headers, settings}
use h2l.Transaction.{
  Token, Link, Transaction, bytes, frame, client_changed, link_changed, new_link, server_changed,
  token_of,
}
use h2l.Server.Table.{Links, get, insert, remove}

-- `LinkFlags` and `ServerFlags`.
abbrev pub read_closed : ℕ
read_closed = 0x1

abbrev pub write_closed : ℕ
write_closed = 0x2

abbrev pub read_write_closed : ℕ
read_write_closed = 0x3

abbrev pub attached : ℕ
attached = 0x4

abbrev pub detached : ℕ
detached = 0x8

abbrev pub accept_loop_exited : ℕ
accept_loop_exited = 0x1

abbrev pub forward_loop_exited : ℕ
forward_loop_exited = 0x2

-- The boxed errors of `send_to`.
pub data SendError : Type 0 where
  link_not_found : Token → SendError
  try_send_error : TrySendError → SendError

module _ {Sender : Type 0} (bits : Bitflags) (channel : Channel Sender (Transaction Sender)) where
  open channel use {World, try_send}

  -- `Option::unwrap_or` and `Result::unwrap`.
  abbrev pub unwrap_or : Option Token → Token → Token
  unwrap_or none d = d
  unwrap_or (some token) d = token

  -- The table of the links, the channels, and the calls of the closure so far.
  pub record Server : Type 0 where
    pub links : Links Sender
    pub world : World
    pub calls : List (Transaction Sender)

  -- `Server::new`, on what `to_socket_addrs` gives and with the channels as they then are.
  unfoldable pub new :
      {Address : Type 0} → Outcome IoError (List Address) → World → Outcome ⊥ Server
  new (ok addrs) w = ok (record { links = []; world = w; calls = [] })
  new _ w = panic

  unfoldable pub find_link : Token → Server → Option (Link Sender)
  find_link token s = get s.links token

  -- `Link::send`, with its error boxed.
  unfoldable pub send : Link Sender → Transaction Sender → Exec Server SendError (Unit {0})
  send link tr s =
      let (r, w) = try_send link.outgoing_tx tr s.world in
      (convert try_send_error r, record s { world = w })

  -- The `map_or` on the link that was looked up.
  unfoldable pub send_found :
      Token → Transaction Sender → Option (Link Sender) → Exec Server SendError (Unit {0})
  send_found token tr none = raise (link_not_found token)
  send_found token tr (some link) = send link tr

  unfoldable pub send_to : Token → Transaction Sender → Exec Server SendError (Unit {0})
  send_to token tr s = send_found token tr (find_link token s) s

  abbrev pub unwrapped : Outcome SendError (Unit {0}) → Outcome ⊥ (Unit {0})
  unwrapped (ok a) = ok a
  unwrapped _ = panic

  abbrev pub unwrap : Exec Server SendError (Unit {0}) → Exec Server ⊥ (Unit {0})
  unwrap m s = (unwrapped (m s).0, (m s).1)

  module _ (f : Transaction Sender → World → World) where
    abbrev pub interfere : (World → World) → Exec Server ⊥ (Unit {0})
    interfere others s = (ok tt, record s { world = others s.world })

    abbrev pub call : Transaction Sender → Exec Server ⊥ (Unit {0})
    call tr s = (ok tt, record s { world = f tr s.world; calls = s.calls ++ (tr ∷ []) })

    -- A frame of SETTINGS: sent back to its link, and then acknowledged.
    unfoldable pub on_settings : Settings → Option Token → Exec Server ⊥ (Unit {0})
    on_settings v token =
        if not (Settings.is_ack bits v.flags)
        then (unwrap (send_to (unwrap_or token 0) (frame (settings v) token))
            >> unwrap (send_to (unwrap_or token 0) (frame (settings Settings.ack) token)))
        else pure tt

    unfoldable pub on_frame : Frame → Option Token → Exec Server ⊥ (Unit {0})
    on_frame (data_frame d) token = call (frame (data_frame d) token)
    on_frame (headers h) token = call (frame (headers h) token)
    on_frame (settings v) token = on_settings v token
    on_frame _ token = pure tt

    unfoldable pub on_new_link : Link Sender → Exec Server ⊥ (Unit {0})
    on_new_link link s =
        call (link_changed attached (token_of link))
          (record s { links = insert s.links (token_of link) link })

    unfoldable pub on_link_changed : ℕ → Token → Exec Server ⊥ (Unit {0})
    on_link_changed flags token s =
        if flags == read_closed
        then (ok tt, (send_to token (link_changed flags token) s).1)
        else if flags == read_write_closed
        then call (link_changed detached token) (record s { links = remove s.links token })
        else (ok tt, s)

    -- How the `match` on a transaction ends: `true` breaks the loop.
    unfoldable pub on_server_changed : ℕ → Exec Server ⊥ Bool
    on_server_changed flags =
        if flags == accept_loop_exited
        then (call (server_changed forward_loop_exited) >> pure true)
        else pure false

    unfoldable pub on_transaction : Transaction Sender → Exec Server ⊥ Bool
    on_transaction (frame v token) = on_frame v token >> pure false
    on_transaction (new_link link) = on_new_link link >> pure false
    on_transaction (link_changed flags token) = on_link_changed flags token >> pure false
    on_transaction (server_changed flags) = on_server_changed flags
    on_transaction (bytes xs token) = call (bytes xs token) >> pure false
    on_transaction (client_changed flags token) = call (client_changed flags token) >> pure false

    -- The loop over what `recv` gives, each with what the other tasks did to the channels before.
    unfoldable pub forward_loop :
        List ((World → World) × Transaction Sender) → Exec Server ⊥ (Unit {0})
    forward_loop [] = pure tt
    forward_loop ((others, tr) ∷ rest) = do
      interfere others
      stop ← on_transaction tr
      if stop then pure tt else forward_loop rest
