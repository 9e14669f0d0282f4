-- ===== src/Mesh/Budget.antt =====
-- go-daemon/pkg/mesh/mesh.go: what `routeToPeers` hands out, and to whom.
use ripple.Prelude.{
  ℕ, suc, ◌+◌, ◌^◌, ◌≤◌, ◌<◌, Text, pos, ◌≡◌, ◌≢◌, ◌⊎◌, refl, inl, List, [], ◌∷◌, arith,
}
use ripple.Prelude.{false, text_eq, inc_pos}
use ripple.Prelude.{if◌then◌else◌}
use ripple.Message.{Message}
use ripple.Routing.{
  Floats, EncounterStat, SprayAction, deliver, spray, handoff, keep, dup, spray_and_wait, decide,
  fresh_stat,
}
use ripple.Mesh.Node.{
  Effect, direct, World, Env, holds_copy, routing_candidates, stat_for_destination,
}
use ripple.Mesh.Route.{
  Routed, zero_stat, routing_state, hand_over, act, the_forwarder, route_peer, route_loop,
  route_to_peers,
}

-- How many copies went to a peer other than the destination.
unfoldable pub relays : Text → List Effect → ℕ
relays dst [] = 0
relays dst (direct p m ∷ es) = (if text_eq p dst then 0 else 1) + relays dst es
relays dst (_ ∷ es) = relays dst es

module _ {F : Type 0} (fl : Floats F) (mine : EncounterStat F) (from : Text) where
  -- The books after a part of the loop: `c` copies exist, and every one beyond the first `c₀` went to a
  -- relay, of which `r₀` had been served before.
  record Balanced (l c₀ r₀ : ℕ) (dst : Text) (c : ℕ) (r : Routed F) : Type 0 where
    counted : r.message.copies_made ≡ pos c
    bounded : (c ≡ c₀) ⊎ (c ≤ l)
    spent : c + r₀ ≡ c₀ + relays dst r.world.trace
    addressed : r.message.recipient ≡ dst

  act-Balanced :
      (l c₀ r₀ : ℕ) (dst : Text) (c : ℕ) (a : SprayAction) (p : Text) (r : Routed F)
      → l < 2 ^ 63
      → (a ≡ deliver → p ≡ dst)
      → (a ≡ spray → (p ≢ dst) × (c < l))
      → a ≢ handoff
      → Balanced l c₀ r₀ dst c r
      → (c' : ℕ) × Balanced l c₀ r₀ dst c' (act a from p r)
  unfolding act hand_over relays
  act-Balanced l c₀ r₀ dst c deliver p r hl d s h b =
      let e : p ≡ dst = d refl in (c, ground (arith, e))
  act-Balanced l c₀ r₀ dst c spray p r hl d s h b =
      let (ne, lt) = s refl in (suc c, ground (arith, ne, lt, inc_pos c))
  act-Balanced l c₀ r₀ dst c handoff p r hl d s h b = absurd (h refl)
  act-Balanced l c₀ r₀ dst c keep p r hl d s h b = (c, b)
  act-Balanced l c₀ r₀ dst c dup p r hl d s h b = (c, b)

  route_peer-Balanced :
      (l c₀ r₀ : ℕ) (dst : Text) (c : ℕ) (p : Text) (r : Routed F)
      → l < 2 ^ 63
      → fl.lt mine.predictability fl.zero ≡ false
      → Balanced l c₀ r₀ dst c r
      → (c' : ℕ) × Balanced l c₀ r₀ dst c' (route_peer fl (spray_and_wait (pos l)) mine from p r)
  unfolding route_peer
  route_peer-Balanced l c₀ r₀ dst c p r hl hm b =
      let holds = holds_copy r.world.node r.message.id p in
      let state = routing_state r.message in
      act-Balanced l c₀ r₀ dst c
        (decide fl (spray_and_wait (pos l)) state p mine (zero_stat fl) holds) p r hl
        (λ e. unfold decide routing_state in ground arith)
        (λ e. unfold decide routing_state in ground arith)
        (λ e. unfold decide routing_state zero_stat fresh_stat in ground arith) b

  route_loop-Balanced :
      (l c₀ r₀ : ℕ) (dst : Text) (ps : List Text) (c : ℕ) (r : Routed F)
      → l < 2 ^ 63
      → fl.lt mine.predictability fl.zero ≡ false
      → Balanced l c₀ r₀ dst c r
      → (c' : ℕ) × Balanced l c₀ r₀ dst c' (route_loop fl (spray_and_wait (pos l)) mine from ps r)
  unfolding route_loop
  route_loop-Balanced l c₀ r₀ dst [] c r hl hm b = (c, b)
  route_loop-Balanced l c₀ r₀ dst (p ∷ ps) c r hl hm b =
      let (c', b') = route_peer-Balanced l c₀ r₀ dst c p r hl hm b in
      route_loop-Balanced l c₀ r₀ dst ps c' _ hl hm b'

-- A routed message with `c` copies leaves a node of budget `l` below 2^63 with a count `c'` that is `c` or at most
-- `l`, and exactly `c' - c` copies went to peers other than its destination. The node's own
-- predictability for the destination is not negative. The count `c` of the message is taken as it is, 0 included.
pub route_to_peers_budget :
    {F : Type 0} (env : Env F) (m : Message) (from : Text) (w : World F) (l c : ℕ)
    → the_forwarder w.node ≡ spray_and_wait (pos l)
    → l < 2 ^ 63
    → m.copies_made ≡ pos c
    → env.floats.lt
        (stat_for_destination env.floats w.node m.recipient env.unix).predictability
        env.floats.zero
      ≡ false
    → (c' : ℕ) × ((route_to_peers env m from w).message.copies_made ≡ pos c')
      × ((c' ≡ c) ⊎ (c' ≤ l))
      × (c' + relays m.recipient w.trace
          ≡ c + relays m.recipient (route_to_peers env m from w).world.trace)
unfolding route_to_peers
route_to_peers_budget env m from w l c f hl e hm =
    let mine = stat_for_destination env.floats w.node m.recipient env.unix in
    let start : Balanced env.floats mine from l c (relays m.recipient w.trace) m.recipient c
        (record { world = w; message = m }) =
      record { counted = e; bounded = inl refl; spent = refl; addressed = refl } in
    let (c', b) =
      route_loop-Balanced env.floats mine from l c (relays m.recipient w.trace) m.recipient
        (routing_candidates w.node from) c (record { world = w; message = m }) hl hm start in
    rw f (c', b.counted, b.bounded, b.spent)
