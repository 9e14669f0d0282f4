-- ===== src/Mesh/Dedup.antt =====
-- go-daemon/pkg/mesh/mesh.go: how often a message reaches the application.
use ripple.Prelude.{ℕ, ◌+◌, Text, ◌≡◌, refl, ◌∙◌, List, [], ◌∷◌, arith, text_eq, if◌then◌else◌}
use ripple.Prelude.{by_test, Bool, false, not, ◌&&◌, ◌||◌, member}
use ripple.Message.{Message}
use ripple.Message.Hops.{decrement_ttl}
use ripple.Mesh.Node.{
  RelayAction, on_message, World, Env, emit, add_peer, remove_peer, note_encounter, seen_cleanup,
}
use ripple.Routing.{
  Floats, EncounterStat, SprayAction, deliver, spray, handoff, keep, dup, Forwarder,
}
use ripple.Mesh.Route.{Routed, hand_over, act, route_peer, route_loop, route_to_peers}
use ripple.Mesh.Handle.{
  is_routed, send_message, forwarded_message, relay_on, add_sender, acknowledge, arrival,
  deliver_new, deliver_message,
}
use ripple.Mesh.Quiet.{
  deliveries, IsQuiet, IsQuiet-trans, emit_relay-IsQuiet, add_peer-IsQuiet, send_message-IsQuiet,
  relay_on-IsQuiet, add_sender-IsQuiet, acknowledge-IsQuiet,
}

-- What happens at a node: a message comes in from a peer, one is sent, a peer comes or goes.
-- Each has the environment of its moment.
pub data Input (F : Type 0) : Type 0 where
  arrive : Env F → Message → Text → Input F
  send : Env F → Message → Input F
  join : Text → Input F
  leave : Text → Input F

abbrev once : Bool → ℕ
once b = if b then 1 else 0

module _ {F : Type 0} where
  unfoldable pub step : Input F → World F → World F
  step (arrive env m from) w = deliver_message env m from w
  step (send env m) w = (send_message env m w).0
  step (join p) w = add_peer p w
  step (leave p) w = remove_peer p w

  unfoldable pub run : List (Input F) → World F → World F
  run [] w = w
  run (i ∷ is) w = run is (step i w)

  -- Whether a message of this ID comes in.
  unfoldable pub arrives : Text → List (Input F) → Bool
  arrives k [] = false
  arrives k (arrive env m from ∷ is) = text_eq k m.id || arrives k is
  arrives k (_ ∷ is) = arrives k is

module _ {F : Type 0} (k : Text) where
  act_id :
      (a : SprayAction) (from p : Text) (r : Routed F) → (act a from p r).message.id ≡ r.message.id
  unfolding act hand_over
  act_id deliver from p r = refl
  act_id spray from p r = refl
  act_id handoff from p r = refl
  act_id keep from p r = refl
  act_id dup from p r = refl

  route_loop_id :
      (fl : Floats F) (f : Forwarder) (mine : EncounterStat F) (from : Text) (ps : List Text)
      (r : Routed F)
      → (route_loop fl f mine from ps r).message.id ≡ r.message.id
  unfolding route_loop route_peer
  route_loop_id fl f mine from [] r = refl
  route_loop_id fl f mine from (p ∷ ps) r =
      route_loop_id fl f mine from ps (route_peer fl f mine from p r) ∙ act_id _ from p r

  forwarded_message_id :
      (env : Env F) (m : Message) (from : Text) (w : World F)
      → (forwarded_message env m from w).id ≡ m.id
  unfolding forwarded_message route_to_peers
  forwarded_message_id env m from w =
      by_test (λ (x : Message). x.id ≡ m.id) (is_routed w.node m)
        (λ e. route_loop_id env.floats _ _ from _ _) (λ e. refl)

  -- Relaying counts the copies of a message and its hops, and does not change its ID.
  relay_on_id :
      (env : Env F) (m : Message) (from : Text) (w : World F) → (relay_on env m from w).0.id ≡ m.id
  unfolding relay_on decrement_ttl
  relay_on_id env m from w = ground (arith, forwarded_message_id env (decrement_ttl m) from w)

  arrival_once :
      (env : Env F) (m : Message) (from : Text) (w : World F)
      → ((arrival env m from w).node.seen ≡ m.id ∷ w.node.seen)
        × (deliveries k (arrival env m from w).trace ≡ deliveries k w.trace)
  unfolding arrival note_encounter deliveries
  arrival_once env m from w = ground arith

  handed_over :
      (m : Message) (w : World F)
      → deliveries k (emit (on_message m) w).trace ≡ once (text_eq k m.id) + deliveries k w.trace
  unfolding deliveries
  handed_over m w = refl

  deliver_new-once :
      (env : Env F) (m : Message) (from : Text) (w : World F)
      → ((deliver_new env m from w).node.seen ≡ m.id ∷ w.node.seen)
        × (deliveries k (deliver_new env m from w).trace
            ≡ once (text_eq k m.id) + deliveries k w.trace)
  unfolding deliver_new
  deliver_new-once env m from w =
      let arrived = arrival env m from w in
      let known = add_sender env m arrived in
      let p = relay_on env m from known in
      let handed = emit (on_message p.0) p.1 in
      let (seen, told) = arrival_once env m from w in
      let before : IsQuiet k arrived p.1 =
        IsQuiet-trans k (add_sender-IsQuiet k env m arrived)
          (relay_on-IsQuiet k env m from known) in
      let behind : IsQuiet k handed (acknowledge env p.0 handed) =
        acknowledge-IsQuiet k env p.0 handed in
      (
        behind.same_seen ∙ (before.same_seen ∙ seen),
        behind.no_delivery
            ∙ (handed_over p.0 p.1 ∙ rw (relay_on_id env m from known, before.no_delivery, told)),
      )

  deliver_message-once :
      (env : Env F) (m : Message) (from : Text) (w : World F)
      → (member k (deliver_message env m from w).node.seen
          ≡ (text_eq k m.id || member k w.node.seen))
        × (deliveries k (deliver_message env m from w).trace
            ≡ once (text_eq k m.id && not (member k w.node.seen)) + deliveries k w.trace)
  unfolding deliver_message member
  deliver_message-once env m from w =
      ground
        (arith, deliver_new-once env m from w, emit_relay-IsQuiet k RelayAction.dropped from m w)

  remove_peer-IsQuiet : (p : Text) (w : World F) → IsQuiet k w (remove_peer p w)
  unfolding remove_peer deliveries
  remove_peer-IsQuiet p w = record { same_seen = refl; no_delivery = refl }

  -- Over any sequence of arrivals, sends, joins and leaves in which the dedup cache is not pruned, the
  -- application is handed a message of a given ID exactly once if one arrives and the ID was not
  -- seen before, and otherwise not at all.
  pub run-delivers_once :
      (is : List (Input F)) (w : World F)
      → deliveries k (run is w).trace
        ≡ once (arrives k is && not (member k w.node.seen)) + deliveries k w.trace
  unfolding run step arrives
  run-delivers_once [] w = omega arith
  run-delivers_once (arrive env m from ∷ is) w = ground (
    arith,
    deliver_message-once env m from w,
    run-delivers_once is (deliver_message env m from w),
  )
  run-delivers_once (send env m ∷ is) w =
      ground (arith, send_message-IsQuiet k env m w, run-delivers_once is (send_message env m w).0)
  run-delivers_once (join p ∷ is) w =
      ground (arith, add_peer-IsQuiet k p w, run-delivers_once is (add_peer p w))
  run-delivers_once (leave p ∷ is) w =
      ground (arith, remove_peer-IsQuiet p w, run-delivers_once is (remove_peer p w))

  -- A prune of the dedup cache between two arrivals of one message, the first of them new, hands it
  -- over twice.
  pub seen_cleanup-redelivers :
      (env env' : Env F) (m : Message) (from from' : Text) (w : World F)
      → m.id ≡ k
      → member k w.node.seen ≡ false
      → deliveries k
          (deliver_message env' m from' (seen_cleanup (deliver_message env m from w))).trace
        ≡ 2 + deliveries k w.trace
  unfolding seen_cleanup member
  seen_cleanup-redelivers env env' m from from' w e new =
      let after = seen_cleanup (deliver_message env m from w) in
      ground (arith, deliver_message-once env m from w, deliver_message-once env' m from' after)
