-- ===== src/Daemon.antt =====
-- go-daemon/cmd/rippled/main.go: the daemon's terminal, on the node and the store.
-- What is printed is a list of lines, newest first, by what they say; the delay of a message is left out.
pub mod Fields
pub mod Commands
pub mod Shown
pub mod Startup
mod Tests
use ripple.Prelude.{
  ℕ, ◌+◌, Text, ℤ, pos, List, [], ◌∷◌, ◌++◌, Bool, true, false, is_empty, text_eq, length, take,
  ltb, ltb_ℤ, if◌then◌else◌,
}
use ripple.Message.{Message}
use ripple.Message.Kinds.{type_chat, type_sos, type_delivery_ack}
use ripple.Message.Make.{new_chat}
use ripple.Mesh.Node.{World, Env}
use ripple.Mesh.Handle.{send_message, sent_message}
use ripple.Store.{Store, has_message, save_message, all_messages}

-- A line of the terminal. A name is cut to 16 bytes, and the Boolean says that it was.
pub data Line : Type 0 where
  dm_from : Text → Bool → ℤ → Text → Line
  chat_from : Text → Bool → ℤ → Text → Line
  delivery_confirmed : Text → Line
  sos_from : Text → Bool → ℤ → Text → Line
  other_from : Text → Bool → Text → Text → Line
  send_error : Line
  sent_to_all : ℕ → Text → Line
  sent_to : Text → Text → Line
  help_text : Line
  identity_of : Text → Text → Line
  known_peers : List Text → Line
  addresses : Line
  usage_nick : Line
  nick_changed : Text → Line
  usage_connect : Line
  connecting : Text → Line
  connection_failed : Line
  usage_msg : Line
  no_peer_found : Text → Line
  statistics : ℕ → ℕ → ℕ → Line
  cleared : Line
  shutting_down : Line
  unknown_command : Text → Line

-- The global variables, with what was printed; `quit` is `os.Exit(0)`.
pub record Daemon (F : Type 0) : Type 0 where
  pub world : World F
  pub store : Store
  pub nickname : Text
  pub peer_id : Text
  pub shown : List Line
  pub quit : Bool

-- The messages of type chat.
unfoldable pub chat_count : List Message → ℕ
chat_count [] = 0
chat_count (m ∷ ms) = (if text_eq m.kind type_chat then 1 else 0) + chat_count ms

-- The line of a message.
unfoldable pub line_of : Message → Line
line_of m =
    let sender = if is_empty m.sender_nick then m.sender else m.sender_nick in
    let long = ltb 16 (length sender) in
    let name = if long then take 16 sender else sender in
    let hops = if ltb_ℤ (pos 0) m.hop_count then m.hop_count else pos 0 in
    if text_eq m.kind type_chat
    then (if is_empty m.recipient
        then chat_from name long hops m.payload
        else dm_from name long hops m.payload)
    else if text_eq m.kind type_delivery_ack
    then delivery_confirmed m.payload
    else if text_eq m.kind type_sos
    then sos_from name long hops m.payload
    else other_from name long m.kind m.payload

module _ {F : Type 0} where
  abbrev pub show : Line → Daemon F → Daemon F
  show line d = record d { shown = line ∷ d.shown }

  unfoldable pub handle_incoming_message : Message → Daemon F → Daemon F
  handle_incoming_message m d =
      if has_message m.id d.store
      then d
      else show (line_of m) (record d { store = save_message m d.store })

  unfoldable pub stats : Daemon F → Daemon F
  stats d =
      let ms = all_messages d.store in
      show (statistics (length d.world.node.peers) (length ms) (chat_count ms)) d

module _ {F : Type 0} (env : Env F) where
  -- `SendMessage`, and the message is kept if it was sent.
  unfoldable pub send_and_save : Message → Line → Daemon F → Daemon F
  send_and_save m line d =
      let sent = send_message env m d.world in
      let told = record d { world = sent.0 } in
      if sent.1
      then show line (record told { store = save_message (sent_message env m d.world) d.store })
      else show send_error told

  -- `broadcastMessage`; `id` and `now` are what `newID` and the clock gave.
  unfoldable pub broadcast_message : Text → ℤ → Text → Daemon F → Daemon F
  broadcast_message id now text d =
      send_and_save (new_chat id now d.peer_id d.nickname [] text)
        (sent_to_all
          (length
            (send_message env (new_chat id now d.peer_id d.nickname [] text) d.world).0.node.peers)
          text)
        d
