-- ===== src/Mesh/Tests.antt =====
-- The theorems of the mesh node at concrete inputs.
use ripple.Mesh.Chain.{relay_along, IsReady, IsTold, relay_along-reach}
use ripple.Prelude.{Text, All, take, drop, List, text_dec, member}
use ripple.Mesh.Handle.{is_foreign}
use ripple.Mesh.Node.{World}
use ripple.Message.{Message}
use ripple.Prelude.{
  ℕ, ◌+◌, ◌≤◌, bytes, pos, ◌≡◌, ◌⊎◌, refl, arith, List, [], ◌∷◌, ◌++◌, All, false, text_dec,
}
use ripple.Prelude.{lookup, member}
use native.Mathlib.Decide.{ℕ_discrete}
use ripple.Routing.{fresh_stat}
use ripple.Mesh.Node.{Effect, seen_cleanup, stat_for_destination}
use ripple.Mesh.Route.{the_forwarder, route_to_peers}
use ripple.Mesh.Handle.{deliver_message}
use ripple.Mesh.Quiet.{deliveries}
use ripple.Mesh.Dedup.{
  Input, arrive, join, leave, run, arrives, run-delivers_once, seen_cleanup-redelivers,
}
use ripple.Mesh.Budget.{relays, route_to_peers_budget}
use ripple.Mesh.Targets.{IsAllowed, route_to_peers_targets}
use ripple.Samples.{open_air, node_n, world_n, to_z, alarm}

-- The message comes from two peers, with another message and a change of the neighbours between.
abbrev traffic : List (Input ℕ)
traffic =
    arrive open_air to_z (bytes "a")
    ∷ join (bytes "d")
    ∷ arrive open_air alarm (bytes "c")
    ∷ leave (bytes "a")
    ∷ arrive open_air to_z (bytes "b")
    ∷ []

run-delivers_once_example : deliveries (bytes "m1") (run traffic world_n).trace ≡ 1
unfolding deliveries arrives member text_dec ℕ_discrete
run-delivers_once_example = run-delivers_once (bytes "m1") traffic world_n

seen_cleanup-redelivers_example :
    deliveries
      (bytes "m1")
      (deliver_message open_air to_z
        (bytes "b")
        (seen_cleanup (deliver_message open_air to_z (bytes "a") world_n))).trace
    ≡ 2
unfolding deliveries member
seen_cleanup-redelivers_example =
    seen_cleanup-redelivers (bytes "m1") open_air open_air to_z (bytes "a") (bytes "b") world_n refl
      refl

nobody_likely :
    open_air.floats.lt
      (stat_for_destination open_air.floats node_n (bytes "z") (pos 1000)).predictability
      0
    ≡ false
unfolding stat_for_destination fresh_stat lookup
nobody_likely = refl

the_forwarder_n : the_forwarder node_n ≡ ripple.Routing.spray_and_wait (pos 2)
unfolding the_forwarder
the_forwarder_n = refl

route_to_peers_budget_example :
    (c' : ℕ) × ((route_to_peers open_air to_z (bytes "a") world_n).message.copies_made ≡ pos c')
    × ((c' ≡ 1) ⊎ (c' ≤ 2))
    × (c' + relays (bytes "z") []
        ≡ 1 + relays (bytes "z") (route_to_peers open_air to_z (bytes "a") world_n).world.trace)
route_to_peers_budget_example =
    route_to_peers_budget open_air to_z (bytes "a") world_n 2 1 the_forwarder_n (omega arith) refl
      nobody_likely

route_to_peers_targets_example :
    (done : List Effect) × ((route_to_peers open_air to_z (bytes "a") world_n).world.trace
      ≡ done ++ [])
    × All (IsAllowed node_n (bytes "m1") (bytes "z") (bytes "a")) done
route_to_peers_targets_example = route_to_peers_targets open_air to_z (bytes "a") world_n

-- Three nodes of which the second hears the first, and the third the second.
abbrev waiting : Text → World ℕ
waiting name = record { node = record node_n { peer_id = name }; trace = [] }

abbrev row : List (World ℕ)
row = waiting (bytes "n1") ∷ waiting (bytes "n2") ∷ waiting (bytes "n3") ∷ []

-- A message from a for all, with one hop left.
abbrev last_hop : Message
last_hop = record to_z { recipient = []; ttl = pos 1 }

row-IsReady : All (IsReady open_air last_hop) row
unfolding is_foreign text_dec member
row-IsReady = (
  record { idle = refl; unseen = refl; runs = refl; named = refl; foreign = refl },
  (
    record { idle = refl; unseen = refl; runs = refl; named = refl; foreign = refl },
    (record { idle = refl; unseen = refl; runs = refl; named = refl; foreign = refl }, tt),
  ),
)

relay_along-reach_example :
    All (IsTold (bytes "m1")) (take 2 (relay_along open_air (bytes "a") row last_hop))
    × (drop 2 (relay_along open_air (bytes "a") row last_hop) ≡ drop 2 row)
relay_along-reach_example =
    relay_along-reach open_air 1 (bytes "a") row last_hop refl refl refl row-IsReady
