-- ===== src/Bridge/Author.antt =====
-- go-daemon/pkg/wsbridge/bridge.go: in whose name a client's messages go out.
use ripple.Prelude.{
  arith, Text, ◌≡◌, ◌∙◌, none, List, [], ◌∷◌, Bool, All, is_empty, Option-cases, inl, inr,
  if◌then◌else◌,
}
use ripple.Message.{Message}
use ripple.Routing.{EncounterStat, SprayAction, deliver, spray, handoff, keep, dup, Forwarder}
use ripple.Mesh.Node.{
  Effect, relay, publish, direct, on_message, on_peer_join, on_peer_leave, World, Env,
}
use ripple.Mesh.Route.{Routed, hand_over, act, route_peer, route_loop, route_to_peers}
use ripple.Mesh.Handle.{first_copy, is_routed, publish_message, send_or_publish, send_message}
use ripple.Prelude.{either, by_test}

-- A message that goes out bears the name, and none is handed to the application.
abbrev pub IsAuthored : Text → Effect → Type 0
IsAuthored who (publish m) = m.sender ≡ who
IsAuthored who (direct p m) = m.sender ≡ who
IsAuthored who (on_message m) = ⊥
IsAuthored who (on_peer_join p) = ⊥
IsAuthored who (on_peer_leave p) = ⊥
IsAuthored who (relay e) = Unit {0}

module _ {F : Type 0} (who : Text) where
  -- Everything that was done so far.
  abbrev AllAuthored : World F → Type 0
  AllAuthored w = All (IsAuthored who) w.trace

  record IsOwn (r : Routed F) : Type 0 where
    done : AllAuthored r.world
    author : r.message.sender ≡ who

  act-IsOwn : (a : SprayAction) (from p : Text) (r : Routed F) → IsOwn r → IsOwn (act a from p r)
  unfolding act hand_over
  act-IsOwn deliver from p r h = record { done = (h.author, (tt, h.done)); author = h.author }
  act-IsOwn spray from p r h = record { done = (h.author, (tt, h.done)); author = h.author }
  act-IsOwn handoff from p r h = record { done = (h.author, (tt, h.done)); author = h.author }
  act-IsOwn keep from p r h = h
  act-IsOwn dup from p r h = h

  module _ (env : Env F) where
    route_loop-IsOwn :
        (f : Forwarder) (mine : EncounterStat F) (from : Text) (ps : List Text) (r : Routed F)
        → IsOwn r
        → IsOwn (route_loop env.floats f mine from ps r)
    unfolding route_loop route_peer
    route_loop-IsOwn f mine from [] r h = h
    route_loop-IsOwn f mine from (p ∷ ps) r h =
        route_loop-IsOwn f mine from ps (route_peer env.floats f mine from p r)
          (act-IsOwn _ from p r h)

    publish-IsAuthored :
        (m : Message) (w : World F)
        → m.sender ≡ who
        → AllAuthored w
        → AllAuthored (publish_message env m w).0
    unfolding publish_message
    publish-IsAuthored m w e h =
        either (λ (p : World F × Bool). AllAuthored p.0) env.publishes (e, h) h

    send_or_publish-IsAuthored :
        (m : Message) (w : World F)
        → m.sender ≡ who
        → AllAuthored w
        → AllAuthored (send_or_publish env m w).0
    unfolding send_or_publish
    send_or_publish-IsAuthored m w e h =
        elim (Option-cases (if is_empty m.recipient then none else env.decode m.recipient)) [
          | inl unknown ↦ rw (unknown, send_or_publish) (publish-IsAuthored m w e h)
          | inr (pid, known) ↦
              rw (known, send_or_publish)
                (either (λ (p : World F × Bool). AllAuthored p.0) (env.reaches pid) (e, h)
                  (publish-IsAuthored m _ e (e, h)))
        ]

    first_copy-sender : (m : Message) → (first_copy m).sender ≡ m.sender
    unfolding first_copy
    first_copy-sender m = ground arith

    pub send_message-IsAuthored :
        (m : Message) (w : World F)
        → m.sender ≡ who
        → AllAuthored w
        → AllAuthored (send_message env m w).0
    unfolding send_message route_to_peers
    send_message-IsAuthored m w e h =
        by_test (λ (p : World F × Bool). AllAuthored p.0) (is_routed w.node m)
          (λ x.
            (route_loop-IsOwn _ _ [] _ _
              (record { done = (tt, h); author = first_copy-sender m ∙ e })).done)
          (λ x. send_or_publish-IsAuthored m _ e (tt, h))
