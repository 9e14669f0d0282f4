-- ===== src/Mesh/Node.antt =====
-- go-daemon/pkg/mesh/mesh.go: the state of a node, its events, and the bookkeeping of its peers.
use ripple.Prelude.{Text, ℤ, pos, Option, none, some, List, [], ◌∷◌, Bool, false, not}
use ripple.Prelude.{Dict, lookup, insert, member, remove, sort, text_eq, is_empty, ◌&&◌, ◌||◌}
use ripple.Prelude.{if◌then◌else◌, leb_ℤ}
use ripple.Message.{Message, Json}
use ripple.Routing.{
  Floats, EncounterStat, Forwarder, spray_and_wait, fresh_stat, age_predictability, aging,
  record_encounter,
}

pub data RelayAction : Type 0 where
  received forwarded dropped sent : RelayAction

pub record RelayEvent : Type 0 where
  pub message_id : Text
  pub kind : Text
  pub action : RelayAction
  pub from : Text
  pub hops : ℤ
  pub ttl : ℤ
  pub copies : ℤ

-- What a handler does to the world outside. A `direct` is an attempt to hand a peer a message over a
-- stream of its own, whether or not it succeeds.
pub data Effect : Type 0 where
  relay : RelayEvent → Effect
  publish : Message → Effect
  direct : Text → Message → Effect
  on_message : Message → Effect
  on_peer_join : Text → Effect
  on_peer_leave : Text → Effect

pub record Node (F : Type 0) : Type 0 where
  pub peer_id : Text
  pub peers : List Text
  pub seen : List Text
  pub encounters : Dict (EncounterStat F)
  pub sprayed : Dict (List Text)
  pub spray_budget : ℤ
  pub forwarder : Option Forwarder
  pub started : Bool

pub record World (F : Type 0) : Type 0 where
  pub node : Node F
  pub trace : List Effect

pub record Env (F : Type 0) : Type 0 where
  pub floats : Floats F
  pub json : Json F
  pub decode : Text → Option Text
  pub reaches : Text → Bool
  pub publishes : Bool
  pub unix : ℤ
  pub nano : ℤ
  pub ack_id : Text

abbrev pub event : RelayAction → Text → Message → RelayEvent
event action from m = record {
  message_id = m.id;
  kind = m.kind;
  action = action;
  from = from;
  hops = m.hop_count;
  ttl = m.ttl;
  copies = m.copies_made;
}

module _ {F : Type 0} where
  -- `WithSprayBudget`
  unfoldable pub with_spray_budget : ℤ → Node F → Node F
  with_spray_budget l n =
      if leb_ℤ l (pos 0)
      then record n { spray_budget = pos 0; forwarder = none }
      else record n { spray_budget = l; forwarder = some (spray_and_wait l) }

  -- `NewNode`, before its options.
  unfoldable pub new_node : Text → Node F
  new_node id = record {
    peer_id = id;
    peers = [];
    seen = [];
    encounters = [];
    sprayed = [];
    spray_budget = pos 0;
    forwarder = none;
    started = false;
  }

  abbrev pub emit : Effect → World F → World F
  emit e w = record w { trace = e ∷ w.trace }

  -- `emitRelay`
  abbrev pub emit_relay : RelayAction → Text → Message → World F → World F
  emit_relay action from m = emit (relay (event action from m))

  abbrev pub with_node : Node F → World F → World F
  with_node n w = record w { node = n }

  unfoldable pub add_peer : Text → World F → World F
  add_peer pid w =
      let n = w.node in
      if member pid n.peers
      then w
      else emit (on_peer_join pid) (with_node (record n { peers = pid ∷ n.peers }) w)

  unfoldable pub remove_peer : Text → World F → World F
  remove_peer pid w =
      let n = w.node in
      emit (on_peer_leave pid) (with_node (record n { peers = remove pid n.peers }) w)

  -- One tick of `StartSeenCleanup`.
  unfoldable pub seen_cleanup : World F → World F
  seen_cleanup w = let n = w.node in with_node (record n { seen = []; sprayed = [] }) w

  -- `sprayed[id]`, where a missing entry reads as an empty set.
  unfoldable pub copy_set : Node F → Text → List Text
  copy_set n id = elim (lookup id n.sprayed) [ none ↦ [] | some s ↦ s ]

  -- `sprayed[id][peer]`
  unfoldable pub holds_copy : Node F → Text → Text → Bool
  holds_copy n id peer = member peer (copy_set n id)

  unfoldable pub mark_sprayed : Text → Text → Node F → Node F
  mark_sprayed id peer n = record n { sprayed = insert id (peer ∷ copy_set n id) n.sprayed }

  -- The known peers but ourselves and where the message came from.
  unfoldable pub eligible : Node F → Text → List Text → List Text
  eligible n from [] = []
  eligible n from (p ∷ ps) =
      if text_eq p n.peer_id || (not (is_empty from) && text_eq p from)
      then eligible n from ps
      else p ∷ eligible n from ps

  unfoldable pub routing_candidates : Node F → Text → List Text
  routing_candidates n from = sort (eligible n from n.peers)

module _ {F : Type 0} (fl : Floats F) where
  -- `recordEncounter`, of a node.
  unfoldable pub note_encounter : Text → ℤ → Node F → Node F
  note_encounter peer now n =
      let stat : EncounterStat F = elim (lookup peer n.encounters) [
        | none ↦ fresh_stat fl peer
        | some s ↦ s
      ] in
      let aged = age_predictability fl (aging fl stat now) stat in
      record n { encounters = insert peer (record_encounter fl now [] aged) n.encounters }

  -- `statForDestinationLocked`
  unfoldable pub stat_for_destination : Node F → Text → ℤ → EncounterStat F
  stat_for_destination n dst now = elim (lookup dst n.encounters) [
    | none ↦ fresh_stat fl dst
    | some s ↦ age_predictability fl (aging fl s now) s
  ]
