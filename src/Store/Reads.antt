-- ===== src/Store/Reads.antt =====
-- go-daemon/pkg/store/store.go: what the queries return.
use ripple.Prelude.{
  ℕ, zero, suc, ◌+◌, ◌-◌, ◌≤◌, ◌<◌, ◌≡◌, refl, sym, ap, ◌∙◌, Text, pos, some, arith,
}
use ripple.Prelude.{List, [], ◌∷◌, ◌++◌, length, drop, append_assoc, length-append, ltb, Bool-cases}
use ripple.Prelude.{inl, inr, if◌then◌else◌, text_eq}
use ripple.Prelude.{Bool, ◌||◌}
use mathlib.Core.List.{reverse, reverse-append}
use mathlib.Core.Option
use ripple.Message.{Message}
use ripple.Store.{
  Store, save_message, messages_loop, all_messages, messages_for_contact_loop, messages_for_contact,
  get_elem?, recent_loop, recent_messages, has_message_loop, has_message,
}

get_elem?-drop :
    (ms : List Message) (k : ℕ)
    → k < length ms
    → (m : Message) × (get_elem? ms k ≡ some m) × (m ∷ drop (suc k) ms ≡ drop k ms)
unfolding get_elem?
get_elem?-drop [] k h = absurd (omega arith)
get_elem?-drop (m ∷ ms) zero h = (m, refl, refl)
get_elem?-drop (m ∷ ms) (suc k) h = get_elem?-drop ms k (omega arith)

-- After `i` rounds the result holds the last `i` messages.
recent_loop-drop :
    (ms : List Message) (rounds i k : ℕ)
    → k + i ≡ length ms
    → rounds ≤ k
    → recent_loop ms rounds i (drop k ms) ≡ some (drop (k - rounds) ms)
unfolding recent_loop
recent_loop-drop ms zero i k e h = ap (λ (j : ℕ). some (drop j ms)) (omega arith)
recent_loop-drop ms (suc rounds) i zero e h = absurd (omega arith)
recent_loop-drop ms (suc rounds) i (suc k) e h =
    let at : length ms - 1 - i ≡ k = omega arith in
    let (m, found, join) = get_elem?-drop ms k (omega arith) in
    let less : suc k - suc rounds ≡ k - rounds = omega arith in
    rw (at, found, recent_loop, join, less)
      (recent_loop-drop ms rounds (i + 1) k (omega arith) (omega arith))

drop-all : (ms : List Message) → drop (length ms) ms ≡ []
drop-all [] = refl
drop-all (m ∷ ms) = drop-all ms

-- `RecentMessages` at a length that is not negative never fails, and returns the last messages in the
-- order of their arrival: `n` of them, or all if there are fewer.
pub recent_messages-drop :
    (n : ℕ) (s : Store) → recent_messages (pos n) s ≡ some (drop (length s.messages - n) s.messages)
unfolding recent_messages
recent_messages-drop n s = elim (Bool-cases (ltb (length s.messages) n)) [
  | inl more ↦ rw more (
      last (length s.messages) (omega arith)
      ∙ ap (λ (k : ℕ). some (drop k s.messages)) (ground arith))
  | inr fits ↦ rw fits (last n (ground arith))
]
  where
    last :
        (n : ℕ)
        → n ≤ length s.messages
        → recent_loop s.messages n 0 [] ≡ some (drop (length s.messages - n) s.messages)
    last n h = rw drop-all at (recent_loop-drop s.messages n 0 (length s.messages) (omega arith) h)

messages_loop-reverse : (ms result : List Message) → messages_loop ms result ≡ reverse ms ++ result
unfolding messages_loop
messages_loop-reverse [] result = refl
messages_loop-reverse (m ∷ ms) result =
    messages_loop-reverse ms (m ∷ result)
    ∙ rw (reverse-append (m ∷ []) ms) (sym (append_assoc (reverse ms) (m ∷ []) result))

abbrev involves : Text → Message → Bool
involves contact m = text_eq m.sender contact || text_eq m.recipient contact

conversation-append :
    (contact : Text) (ms : List Message) (m : Message)
    → messages_for_contact_loop contact (ms ++ (m ∷ []))
      ≡ messages_for_contact_loop contact ms ++ (if involves contact m then m ∷ [] else [])
unfolding messages_for_contact_loop
conversation-append contact [] m = refl
conversation-append contact (x ∷ ms) m = elim (Bool-cases (involves contact x)) [
  | inl e ↦ rw (e, conversation-append contact ms m)
  | inr e ↦ rw (e, conversation-append contact ms m)
]

has_message-append :
    (id : Text) (ms : List Message) (m : Message)
    → has_message_loop id (ms ++ (m ∷ [])) ≡ (text_eq m.id id || has_message_loop id ms)
unfolding has_message_loop
has_message-append id [] m = refl
has_message-append id (x ∷ ms) m = ground (arith, has_message-append id ms m)

drop-append : (k : ℕ) (ms ns : List Message) → k ≤ length ms → drop k (ms ++ ns) ≡ drop k ms ++ ns
drop-append zero ms ns h = refl
drop-append (suc k) [] ns h = absurd (omega arith)
drop-append (suc k) (m ∷ ms) ns h = drop-append k ms ns (omega arith)

recent_messages-save :
    (n : ℕ) (m : Message) (s : Store)
    → recent_messages (pos (suc n)) (save_message m s)
      ≡ some (drop (length s.messages - n) s.messages ++ (m ∷ []))
unfolding save_message
recent_messages-save n m s =
    let ms = s.messages ++ (m ∷ []) in
    let k : length ms - suc n ≡ length s.messages - n =
      omega (arith, length-append s.messages (m ∷ [])) in
    recent_messages-drop (suc n) (save_message m s)
    ∙ ap some (ap (λ (j : ℕ). drop j ms) k ∙ drop-append _ s.messages (m ∷ []) (omega arith))

-- After `SaveMessage` the message comes first among all messages, and last among the recent ones and among
-- those of every contact that sent it or is its recipient, whoever the other end is; its ID is found; and the
-- other messages of these answers, the answers for other IDs and contacts and the peers are as before.
pub save_message_reads :
    (m : Message) (s : Store)
    → (all_messages (save_message m s) ≡ m ∷ all_messages s)
      × ((n : ℕ)
          → recent_messages (pos (suc n)) (save_message m s)
            ≡ Option.map (λ ms. ms ++ (m ∷ [])) (recent_messages (pos n) s))
      × ((id : Text) → has_message id (save_message m s) ≡ (text_eq m.id id || has_message id s))
      × ((contact : Text)
          → messages_for_contact contact (save_message m s)
            ≡ messages_for_contact contact s ++ (if involves contact m then m ∷ [] else []))
      × ((save_message m s).peers ≡ s.peers)
unfolding all_messages save_message has_message messages_for_contact
save_message_reads m s = (
  messages_loop-reverse (s.messages ++ (m ∷ [])) []
      ∙ rw (reverse-append s.messages (m ∷ []), messages_loop-reverse s.messages []),
  λ n.
      recent_messages-save n m s
      ∙ sym (ap (Option.map (λ ms. ms ++ (m ∷ []))) (recent_messages-drop n s)),
  λ id. has_message-append id s.messages m,
  λ contact. conversation-append contact s.messages m,
  refl,
)
