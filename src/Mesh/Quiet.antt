-- ===== src/Mesh/Quiet.antt =====
-- go-daemon/pkg/mesh/mesh.go: the parts of the handlers that hand nothing to the application and
-- leave the set of seen messages alone.
use ripple.Prelude.{ℕ, ◌+◌, Text, pos, ◌≡◌, refl, ◌∙◌, List, [], ◌∷◌, arith, text_eq, if◌then◌else◌}
use ripple.Prelude.{Option-cases, inl, inr}
use ripple.Message.{Message}
use ripple.Message.Hops.{decrement_ttl}
use ripple.Routing.{
  Floats, EncounterStat, SprayAction, deliver, spray, handoff, keep, dup, Forwarder,
}
use ripple.Mesh.Node.{
  RelayAction, Effect, on_message, World, Env, emit_relay, add_peer, mark_sprayed,
}
use ripple.Mesh.Route.{Routed, hand_over, act, route_peer, route_loop, route_to_peers}
use ripple.Mesh.Handle.{
  publish_message, send_or_publish, send_message, forward_message, relay_on, add_sender,
  acknowledge, acknowledgement, first_copy,
}

-- How often the application was handed a message of this ID.
unfoldable pub deliveries : Text → List Effect → ℕ
deliveries k [] = 0
deliveries k (on_message m ∷ es) = (if text_eq k m.id then 1 else 0) + deliveries k es
deliveries k (_ ∷ es) = deliveries k es

module _ {F : Type 0} (k : Text) where
  -- Between the two worlds nothing under the ID `k` reached the application, and no ID was marked.
  pub record IsQuiet (w w' : World F) : Type 0 where
    pub same_seen : w'.node.seen ≡ w.node.seen
    pub no_delivery : deliveries k w'.trace ≡ deliveries k w.trace

  pub IsQuiet-refl : (w : World F) → IsQuiet w w
  IsQuiet-refl w = record { same_seen = refl; no_delivery = refl }

  pub IsQuiet-trans : {u v w : World F} → IsQuiet u v → IsQuiet v w → IsQuiet u w
  IsQuiet-trans h k = record {
    same_seen = k.same_seen ∙ h.same_seen;
    no_delivery = k.no_delivery ∙ h.no_delivery;
  }

  pub emit_relay-IsQuiet :
      (a : RelayAction) (from : Text) (m : Message) (w : World F)
      → IsQuiet w (emit_relay a from m w)
  unfolding deliveries
  emit_relay-IsQuiet a from m w = record { same_seen = refl; no_delivery = refl }

  pub add_peer-IsQuiet : (p : Text) (w : World F) → IsQuiet w (add_peer p w)
  unfolding add_peer deliveries
  add_peer-IsQuiet p w = ground arith

  hand_over-IsQuiet : (from p : Text) (r : Routed F) → IsQuiet r.world (hand_over from p r).world
  unfolding hand_over mark_sprayed deliveries
  hand_over-IsQuiet from p r = record { same_seen = refl; no_delivery = refl }

  act-IsQuiet :
      (a : SprayAction) (from p : Text) (r : Routed F) → IsQuiet r.world (act a from p r).world
  unfolding act
  act-IsQuiet deliver from p r = hand_over-IsQuiet from p r
  act-IsQuiet spray from p r = hand_over-IsQuiet from p _
  act-IsQuiet handoff from p r = hand_over-IsQuiet from p r
  act-IsQuiet keep from p r = IsQuiet-refl r.world
  act-IsQuiet dup from p r = IsQuiet-refl r.world

  route_loop-IsQuiet :
      (fl : Floats F) (f : Forwarder) (mine : EncounterStat F) (from : Text) (ps : List Text)
      (r : Routed F)
      → IsQuiet r.world (route_loop fl f mine from ps r).world
  unfolding route_loop route_peer
  route_loop-IsQuiet fl f mine from [] r = IsQuiet-refl r.world
  route_loop-IsQuiet fl f mine from (p ∷ ps) r =
      IsQuiet-trans (act-IsQuiet _ from p r)
        (route_loop-IsQuiet fl f mine from ps (route_peer fl f mine from p r))

  module _ (env : Env F) where
    pub route_to_peers-IsQuiet :
        (m : Message) (from : Text) (w : World F) → IsQuiet w (route_to_peers env m from w).world
    unfolding route_to_peers
    route_to_peers-IsQuiet m from w = route_loop-IsQuiet env.floats _ _ from _ _

    publish-IsQuiet : (m : Message) (w : World F) → IsQuiet w (publish_message env m w).0
    unfolding publish_message deliveries
    publish-IsQuiet m w = ground arith

    send_or_publish-IsQuiet : (m : Message) (w : World F) → IsQuiet w (send_or_publish env m w).0
    unfolding send_or_publish publish_message deliveries
    send_or_publish-IsQuiet m w = ground arith

    pub send_message-IsQuiet : (m : Message) (w : World F) → IsQuiet w (send_message env m w).0
    unfolding send_message deliveries
    send_message-IsQuiet m w =
        let first = record (first_copy m) { hop_count = pos 0 } in
        let told_first = emit_relay RelayAction.sent [] first w in
        let told = emit_relay RelayAction.sent [] (record m { hop_count = pos 0 }) w in
        ground (
          arith,
          IsQuiet-trans (emit_relay-IsQuiet RelayAction.sent [] first w)
              (route_to_peers-IsQuiet (first_copy m) [] told_first),
          IsQuiet-trans (emit_relay-IsQuiet RelayAction.sent [] (record m { hop_count = pos 0 }) w)
              (send_or_publish-IsQuiet m told),
        )

    pub forward_message-IsQuiet :
        (m : Message) (from : Text) (w : World F) → IsQuiet w (forward_message env m from w)
    unfolding forward_message
    forward_message-IsQuiet m from w =
        let told = emit_relay RelayAction.forwarded from m w in
        let quiet = emit_relay-IsQuiet RelayAction.forwarded from m w in
        ground (
          arith,
          quiet,
          route_to_peers-IsQuiet m from w,
          IsQuiet-trans quiet (publish-IsQuiet m told),
        )

    pub relay_on-IsQuiet :
        (m : Message) (from : Text) (w : World F) → IsQuiet w (relay_on env m from w).1
    unfolding relay_on
    relay_on-IsQuiet m from w = ground (
      arith,
      forward_message-IsQuiet (decrement_ttl m) from w,
      emit_relay-IsQuiet RelayAction.dropped from m w,
    )

    pub add_sender-IsQuiet : (m : Message) (w : World F) → IsQuiet w (add_sender env m w)
    unfolding add_sender
    add_sender-IsQuiet m w = elim (Option-cases (env.decode m.sender)) [
      | inl e ↦ rw (e, add_sender) (IsQuiet-refl w)
      | inr (p, e) ↦ rw (e, add_sender) (ground (arith, add_peer-IsQuiet p w))
    ]

    pub acknowledge-IsQuiet : (m : Message) (w : World F) → IsQuiet w (acknowledge env m w)
    unfolding acknowledge
    acknowledge-IsQuiet m w = ground (arith, send_message-IsQuiet (acknowledgement env w.node m) w)
