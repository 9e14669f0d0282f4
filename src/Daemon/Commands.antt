-- ===== src/Daemon/Commands.antt =====
-- go-daemon/cmd/rippled/main.go: the lines that are typed.
use ripple.Prelude.{
  Text, bytes, ℤ, Option, none, some, List, [], ◌∷◌, Bool, true, is_empty, text_eq, if◌then◌else◌,
}
use ripple.Message.Make.{new_chat}
use ripple.Mesh.Node.{Env}
use ripple.Identity.Words.{trim_space}
use ripple.Daemon.{
  sent_to, help_text, identity_of, known_peers, addresses, usage_nick, nick_changed, usage_connect,
  connecting, connection_failed, usage_msg, no_peer_found, cleared, shutting_down, unknown_command,
  Daemon, show, stats, send_and_save, broadcast_message,
}
use ripple.Daemon.Fields.{fields, join_words, has_prefix}

-- What a command draws from outside: the node's surroundings, the random ID and the clock, a peer's short
-- name, and whether a connection to an address succeeds.
pub record Terminal (F : Type 0) : Type 0 where
  pub env : Env F
  pub id : Text
  pub now : ℤ
  pub short_string : Text → Text
  pub connects : Text → Bool

module _ {F : Type 0} (o : Terminal F) where
  -- The first peer whose short name starts so; `KnownPeers` lists them in one of the orders of a Go map.
  unfoldable pub find_peer : Text → List Text → Option Text
  find_peer short [] = none
  find_peer short (p ∷ ps) =
      let rest = find_peer short ps in if has_prefix short (o.short_string p) then some p else rest

  unfoldable pub nick_command : List Text → Daemon F → Daemon F
  nick_command [] d = show usage_nick d
  nick_command (w ∷ ws) d =
      show (nick_changed (join_words (w ∷ ws))) (record d { nickname = join_words (w ∷ ws) })

  unfoldable pub connect_command : List Text → Daemon F → Daemon F
  connect_command [] d = show usage_connect d
  connect_command (addr ∷ ws) d =
      let tried = show (connecting addr) d in
      if o.connects addr then tried else show connection_failed tried

  unfoldable pub msg_command : List Text → Daemon F → Daemon F
  msg_command [] d = show usage_msg d
  msg_command (short ∷ []) d = show usage_msg d
  msg_command (short ∷ w ∷ ws) d = elim (find_peer short d.world.node.peers) [
    | none ↦ show (no_peer_found short) d
    | some target ↦
        send_and_save o.env (new_chat o.id o.now d.peer_id d.nickname target (join_words (w ∷ ws)))
          (sent_to short (join_words (w ∷ ws))) d
  ]

  -- The cases of the switch.
  unfoldable pub run_command : Text → List Text → Daemon F → Daemon F
  run_command name args d =
      if text_eq name (bytes "/help")
      then show help_text d
      else if text_eq name (bytes "/me")
      then show (identity_of d.peer_id d.nickname) d
      else if text_eq name (bytes "/peers")
      then show (known_peers d.world.node.peers) d
      else if text_eq name (bytes "/addrs")
      then show addresses d
      else if text_eq name (bytes "/nick")
      then nick_command args d
      else if text_eq name (bytes "/connect")
      then connect_command args d
      else if text_eq name (bytes "/msg")
      then msg_command args d
      else if text_eq name (bytes "/stats")
      then stats d
      else if text_eq name (bytes "/clear")
      then show cleared d
      else if text_eq name (bytes "/quit")
      then record (show shutting_down d) { quit = true }
      else show (unknown_command name) d

  unfoldable pub handle_command : Text → Daemon F → Daemon F
  handle_command cmd d = elim (fields cmd) [ [] ↦ d | name ∷ args ↦ run_command name args d ]

  -- A line of `handleInput`.
  unfoldable pub handle_input : Text → Daemon F → Daemon F
  handle_input text d =
      let line = trim_space text in
      if is_empty line
      then d
      else if has_prefix (bytes "/") line
      then handle_command line d
      else broadcast_message o.env o.id o.now line d
