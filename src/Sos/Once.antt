-- ===== src/Sos/Once.antt =====
-- go-daemon/pkg/sos/sos.go: the bridge is told of an incoming alert once.
use ripple.Prelude.{ℕ, ◌+◌, Text, ◌≡◌, none, some, List, [], ◌∷◌, Bool, true, false, not, arith}
use ripple.Prelude.{ℤ, lookup, contains, lookup-insert, text_eq, ◌&&◌, ◌||◌, if◌then◌else◌}
use ripple.Prelude.{Option-cases, inl, inr, inc}
use ripple.Message.{Message}
use ripple.Message.Make.{parse_sos_payload}
use ripple.Mesh.Node.{Env}
use ripple.Sos.{
  Manager, Notice, on_sos_received, new_alert, acknowledge_sos, track, handle_incoming_sos,
  handle_delivery_ack, re_broadcast_active,
}

module _ {F : Type 0} where
  -- How often the bridge was told of the alert of an ID.
  unfoldable pub receipts : Text → List (Notice F) → ℕ
  receipts k [] = 0
  receipts k (on_sos_received a ∷ ns) = (if text_eq k a.message.id then 1 else 0) + receipts k ns
  receipts k (_ ∷ ns) = receipts k ns

  -- Whether `HandleIncomingSOS` takes a message: it parses, and its sender is a peer ID.
  unfoldable pub is_taken : Env F → Message → Bool
  is_taken env msg = elim (parse_sos_payload env.json msg) [
    | none ↦ false
    | some payload ↦ elim (env.decode msg.sender) [ none ↦ false | some peer ↦ true ]
  ]

-- What happens to a manager between two alerts of its own, with no alert cancelled or expired.
pub data Event (F : Type 0) : Type 0 where
  incoming : Env F → ℤ → Message → Event F
  delivery_ack : Env F → ℤ → Message → Event F
  re_broadcast : Env F → ℤ → Event F

module _ {F : Type 0} where
  unfoldable pub on_event : Event F → Manager F → Manager F
  on_event (incoming env now msg) m = (handle_incoming_sos env now msg m).0
  on_event (delivery_ack env now ack) m = handle_delivery_ack env now ack m
  on_event (re_broadcast env now) m = re_broadcast_active env now m

  unfoldable pub on_events : List (Event F) → Manager F → Manager F
  on_events [] m = m
  on_events (e ∷ es) m = on_events es (on_event e m)

  -- Whether an alert of this ID comes in and is taken.
  unfoldable pub comes_in : Text → List (Event F) → Bool
  comes_in k [] = false
  comes_in k (incoming env now msg ∷ es) = (text_eq k msg.id && is_taken env msg) || comes_in k es
  comes_in k (_ ∷ es) = comes_in k es

module _ {F : Type 0} (k : Text) where
  handle_incoming_once :
      (env : Env F) (now : ℤ) (msg : Message) (m : Manager F)
      → (contains k (handle_incoming_sos env now msg m).0.alerts
          ≡ (text_eq k msg.id && is_taken env msg || contains k m.alerts))
        × (receipts k (handle_incoming_sos env now msg m).0.notices
            ≡ (if text_eq k msg.id && is_taken env msg && not (contains k m.alerts) then 1 else 0)
              + receipts k m.notices)
  unfolding handle_incoming_sos is_taken track receipts acknowledge_sos new_alert
  handle_incoming_once env now msg m = elim (Option-cases (parse_sos_payload env.json msg)) [
    | inl bad ↦ ground arith
    | inr (payload, parsed) ↦ elim (Option-cases (env.decode msg.sender)) [
      | inl bad ↦ ground arith
      | inr (peer, decoded) ↦ elim (Option-cases (lookup msg.id m.alerts)) [
        | inl unknown ↦
            ground (arith, lookup-insert msg.id k (new_alert msg payload peer now) m.alerts)
        | inr (a, known) ↦
            ground (arith, lookup-insert msg.id k (record a { received_at = now }) m.alerts)
      ]
    ]
  ]

  handle_delivery_ack_quiet :
      (env : Env F) (now : ℤ) (ack : Message) (m : Manager F)
      → (contains k (handle_delivery_ack env now ack m).alerts ≡ contains k m.alerts)
        × (receipts k (handle_delivery_ack env now ack m).notices ≡ receipts k m.notices)
  unfolding handle_delivery_ack receipts
  handle_delivery_ack_quiet env now ack m = elim (Option-cases (env.json.to_delivery ack.payload)) [
    | inl bad ↦ ground arith
    | inr (info, parsed) ↦ elim (Option-cases (lookup info.message_id m.alerts)) [
      | inl unknown ↦ ground arith
      | inr (a, known) ↦ ground (
        arith,
        lookup-insert info.message_id k (record a { ack_count = inc a.ack_count }) m.alerts,
      )
    ]
  ]

  -- Over any sequence of incoming alerts, acknowledgements and re-broadcasts, the bridge is told of an
  -- alert exactly once if one of its ID is taken and it was not tracked, and otherwise not at all.
  pub on_events-notify_once :
      (es : List (Event F)) (m : Manager F)
      → receipts k (on_events es m).notices
        ≡ (if comes_in k es && not (contains k m.alerts) then 1 else 0) + receipts k m.notices
  unfolding on_events on_event comes_in re_broadcast_active
  on_events-notify_once [] m = omega arith
  on_events-notify_once (incoming env now msg ∷ es) m = ground (
    arith,
    handle_incoming_once env now msg m,
    on_events-notify_once es (handle_incoming_sos env now msg m).0,
  )
  on_events-notify_once (delivery_ack env now ack ∷ es) m = ground (
    arith,
    handle_delivery_ack_quiet env now ack m,
    on_events-notify_once es (handle_delivery_ack env now ack m),
  )
  on_events-notify_once (re_broadcast env now ∷ es) m =
      on_events-notify_once es (re_broadcast_active env now m)
