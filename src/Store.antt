-- ===== src/Store.antt =====
-- go-daemon/pkg/store/store.go: the messages and peers that a daemon remembers, and their backup.
-- The lock of the store makes each method one step; a method is a function from the store to the new
-- store or to its result.
pub mod Backup
pub mod Reads
pub mod Files
mod Tests
use ripple.Prelude.{
  ℕ, zero, suc, ◌+◌, ◌-◌, Text, ℤ, pos, negsuc, Option, none, some, List, [], ◌∷◌, ◌++◌,
}
use ripple.Prelude.{
  Bool, true, false, ◌||◌, text_eq, ltb, length, Dict, lookup, insert, erase, contains,
}
use ripple.Prelude.{if◌then◌else◌}
use ripple.Message.{Message}

pub record Store : Type 0 where
  pub messages : List Message
  pub peers : Dict Text
  pub db_path : Text

-- `New`
unfoldable pub new : Store
new = record { messages = []; peers = []; db_path = [] }

unfoldable pub save_message : Message → Store → Store
save_message m s = record s { messages = s.messages ++ (m ∷ []) }

-- The loop of `Messages` writes from the end of the result to its front.
unfoldable pub messages_loop : List Message → List Message → List Message
messages_loop [] result = result
messages_loop (m ∷ ms) result = messages_loop ms (m ∷ result)

unfoldable pub all_messages : Store → List Message
all_messages s = messages_loop s.messages []

unfoldable pub messages_for_contact_loop : Text → List Message → List Message
messages_for_contact_loop contact [] = []
messages_for_contact_loop contact (m ∷ ms) =
    let rest = messages_for_contact_loop contact ms in
    if text_eq m.sender contact || text_eq m.recipient contact then m ∷ rest else rest

unfoldable pub messages_for_contact : Text → Store → List Message
messages_for_contact contact s = messages_for_contact_loop contact s.messages

-- `s.messages[i]`
unfoldable pub get_elem? : List Message → ℕ → Option Message
get_elem? [] i = none
get_elem? (m ∷ ms) zero = some m
get_elem? (m ∷ ms) (suc i) = get_elem? ms i

-- The loop of `RecentMessages`, with `rounds` to go and `i` done: `none` is an index out of range.
unfoldable pub recent_loop : List Message → ℕ → ℕ → List Message → Option (List Message)
recent_loop ms zero i result = some result
recent_loop ms (suc rounds) i result = elim (get_elem? ms (length ms - 1 - i)) [
  | none ↦ none
  | some m ↦ recent_loop ms rounds (i + 1) (m ∷ result)
]

-- `RecentMessages`: `none` is the panic of `make` at a negative length.
unfoldable pub recent_messages : ℤ → Store → Option (List Message)
recent_messages (negsuc n) s = none
recent_messages (pos n) s =
    recent_loop s.messages (if ltb (length s.messages) n then length s.messages else n) 0 []

unfoldable pub add_peer : Text → Text → Store → Store
add_peer id nick s = if contains id s.peers then s else record s { peers = insert id nick s.peers }

unfoldable pub save_peer : Text → Text → Store → Store
save_peer id nick s = record s { peers = insert id nick s.peers }

unfoldable pub remove_peer : Text → Store → Store
remove_peer id s = record s { peers = erase id s.peers }

unfoldable pub has_message_loop : Text → List Message → Bool
has_message_loop id [] = false
has_message_loop id (m ∷ ms) = text_eq m.id id || has_message_loop id ms

unfoldable pub has_message : Text → Store → Bool
has_message id s = has_message_loop id s.messages
