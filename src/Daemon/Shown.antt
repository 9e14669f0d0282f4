-- ===== src/Daemon/Shown.antt =====
-- go-daemon/cmd/rippled/main.go: the messages that come in, seen as a set of IDs.
use ripple.Prelude.{
  Text, ◌≡◌, sym, ap, ◌∙◌, List, [], ◌∷◌, ◌++◌, append_assoc, map, false, arith, member, text_eq,
  ◌||◌, Bool-cases, inl, inr, if◌then◌else◌,
}
use mathlib.Core.List.{reverse, reverse-cons}
use ripple.Message.{Message}
use ripple.Store.{Store, has_message, has_message_loop, save_message}
use ripple.Daemon.{show, Line, Daemon, line_of, handle_incoming_message}

-- The abstract inbox: which IDs are known, and the messages that were new, newest first.
pub record Inbox : Type 0 where
  pub ids : List Text
  pub taken : List Message

unfoldable pub take_in : Message → Inbox → Inbox
take_in m x = if member m.id x.ids then x else record { ids = m.id ∷ x.ids; taken = m ∷ x.taken }

unfoldable pub take_all : List Message → Inbox → Inbox
take_all [] x = x
take_all (m ∷ ms) x = take_all ms (take_in m x)

has_message_loop-append :
    (k : Text) (m : Message) (ms : List Message)
    → has_message_loop k (ms ++ (m ∷ [])) ≡ (has_message_loop k ms || text_eq m.id k)
unfolding has_message_loop
has_message_loop-append k m [] = ground arith
has_message_loop-append k m (x ∷ ms) = ground (arith, has_message_loop-append k m ms)

has_message-save :
    (k : Text) (m : Message) (s : Store)
    → has_message k (save_message m s) ≡ (has_message k s || text_eq m.id k)
unfolding has_message save_message
has_message-save k m s = has_message_loop-append k m s.messages

module _ {F : Type 0} where
  -- The daemon's handler on one message after another.
  unfoldable pub handle_all : List Message → Daemon F → Daemon F
  handle_all [] d = d
  handle_all (m ∷ ms) d = handle_all ms (handle_incoming_message m d)

  -- The daemon, since it stored `before` and showed `lines`, is at this inbox: it knows these IDs, it stored
  -- the new messages behind the others, oldest first, and it showed each of them.
  pub record IsView (before : List Message) (lines : List Line) (x : Inbox) (d : Daemon F)
      : Type 0 where
    pub known : (k : Text) → has_message k d.store ≡ member k x.ids
    pub stored : d.store.messages ≡ before ++ reverse x.taken
    pub printed : d.shown ≡ map line_of x.taken ++ lines

  handle-IsView :
      (before : List Message) (lines : List Line) (m : Message) (x : Inbox) (d : Daemon F)
      → IsView before lines x d
      → IsView before lines (take_in m x) (handle_incoming_message m d)
  unfolding take_in handle_incoming_message
  handle-IsView before lines m x d v = elim (Bool-cases (member m.id x.ids)) [
    | inl old ↦ rw (old, take_in) (rw (v.known m.id ∙ old, handle_incoming_message) v)
    | inr new ↦ rw (new, take_in) (rw (v.known m.id ∙ new, handle_incoming_message) (fresh new))
  ]
    where
      fresh :
          member m.id x.ids ≡ false
          → IsView before lines
              (record { ids = m.id ∷ x.ids; taken = m ∷ x.taken })
              (show (line_of m) (record d { store = save_message m d.store }))
      fresh new = record {
        known = λ k. unfold member in ground (arith, has_message-save k m d.store, v.known k);
        stored =
            unfold save_message in
            ap (λ ms. ms ++ (m ∷ [])) v.stored
            ∙ append_assoc before (reverse x.taken) (m ∷ [])
            ∙ ap (λ ms. before ++ ms) (sym (reverse-cons m x.taken));
        printed = ap (λ ls. line_of m ∷ ls) v.printed;
      }

  -- The daemon's handling of the messages that come in implements the abstract inbox: it keeps and shows
  -- each message whose ID it does not know yet, once and in the order of arrival, and no other.
  pub handle_all-IsView :
      (before : List Message) (lines : List Line) (ms : List Message) (x : Inbox) (d : Daemon F)
      → IsView before lines x d
      → IsView before lines (take_all ms x) (handle_all ms d)
  unfolding take_all handle_all
  handle_all-IsView before lines [] x d v = v
  handle_all-IsView before lines (m ∷ ms) x d v =
      handle_all-IsView before lines ms (take_in m x) (handle_incoming_message m d)
        (handle-IsView before lines m x d v)
