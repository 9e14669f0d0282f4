-- ===== src/Mesh/Targets.antt =====
-- go-daemon/pkg/mesh/mesh.go: to whom `routeToPeers` hands a copy.
use ripple.Prelude.{Text, ◌≡◌, ◌≢◌, ◌⊎◌, inl, inr, refl, ap, ◌∙◌, List, [], ◌∷◌, ◌++◌, arith, All}
use ripple.Prelude.{Bool, true, false, not, ◌&&◌, ◌||◌, member, is_empty, text_eq}
use ripple.Prelude.{sort, sort_insert, text_lt, lookup-insert}
use ripple.Prelude.{Bool-cases}
use ripple.Message.{Message}
use ripple.Routing.{
  Floats, EncounterStat, SprayAction, deliver, spray, handoff, keep, dup, Forwarder, decide,
}
use ripple.Routing.Policy.{decide-deliver_iff, decide-fresh}
use ripple.Mesh.Node.{
  RelayAction, Effect, relay, publish, direct, on_message, on_peer_join, on_peer_leave, Node, World,
  Env, event, copy_set, holds_copy, mark_sprayed, eligible, routing_candidates,
  stat_for_destination,
}
use ripple.Mesh.Route.{
  Routed, zero_stat, routing_state, hand_over, act, the_forwarder, route_peer, route_loop,
  route_to_peers,
}

module _ {F : Type 0} (n : Node F) (id dst from : Text) where
  -- A peer that may be given a copy: known, not ourselves, not where the message came from.
  pub record IsCandidate (p : Text) : Type 0 where
    pub known : member p n.peers ≡ true
    pub not_self : p ≢ n.peer_id
    pub not_back : (from ≡ []) ⊎ (p ≢ from)

  -- What the loop may do: tell of a relay, and give a candidate that is the destination or holds no
  -- copy from us a copy of the message.
  abbrev pub IsAllowed : Effect → Type 0
  IsAllowed (relay e) = Unit {0}
  IsAllowed (direct p m) =
      IsCandidate p × ((p ≡ dst) ⊎ (holds_copy n id p ≡ false)) × (m.id ≡ id) × (m.recipient ≡ dst)
  IsAllowed (publish m) = ⊥
  IsAllowed (on_message m) = ⊥
  IsAllowed (on_peer_join p) = ⊥
  IsAllowed (on_peer_leave p) = ⊥

  kept :
      (p : Text)
      → member p n.peers ≡ true
      → (text_eq p n.peer_id || (not (is_empty from) && text_eq p from)) ≡ false
      → IsCandidate p
  kept p m e = record { known = m; not_self = ground arith; not_back = split from e }
    where
      split :
          (f : Text)
          → (text_eq p n.peer_id || (not (is_empty f) && text_eq p f)) ≡ false
          → (f ≡ []) ⊎ (p ≢ f)
      split [] e = inl refl
      split (c ∷ cs) e = inr (ground arith)

  eligible-IsCandidate :
      (ps : List Text)
      → ((p : Text) → member p ps ≡ true → member p n.peers ≡ true)
      → All IsCandidate (eligible n from ps)
  unfolding eligible member
  eligible-IsCandidate [] h = tt
  eligible-IsCandidate (p ∷ ps) h =
      let rest = eligible-IsCandidate ps (λ q m. h q (ground (arith, m))) in
      let known : member p n.peers ≡ true = h p (ground arith) in
      elim (Bool-cases (text_eq p n.peer_id || (not (is_empty from) && text_eq p from))) [
        | inl e ↦ rw e rest
        | inr e ↦ rw e (kept p known e, rest)
      ]

  All-sort_insert :
      (p : Text) (ps : List Text)
      → IsCandidate p
      → All IsCandidate ps
      → All IsCandidate (sort_insert p ps)
  unfolding sort_insert
  All-sort_insert p [] hp hs = (hp, tt)
  All-sort_insert p (q ∷ ps) hp hs = elim (Bool-cases (text_lt q p)) [
    | inl e ↦ rw e (hs.0, All-sort_insert p ps hp hs.1)
    | inr e ↦ rw e (hp, hs)
  ]

  All-sort : (ps : List Text) → All IsCandidate ps → All IsCandidate (sort ps)
  unfolding sort
  All-sort [] h = tt
  All-sort (p ∷ ps) h = All-sort_insert p (sort ps) h.0 (All-sort ps h.1)

  routing_candidates-IsCandidate : All IsCandidate (routing_candidates n from)
  unfolding routing_candidates
  routing_candidates-IsCandidate = All-sort _ (eligible-IsCandidate n.peers (λ p h. h))

  -- A mark is only added.
  copy_set-mark : (q : Text) (n' : Node F) → copy_set (mark_sprayed id q n') id ≡ q ∷ copy_set n' id
  unfolding mark_sprayed copy_set
  copy_set-mark q n' = ground (arith, lookup-insert id id (q ∷ copy_set n' id) n'.sprayed)

  holds_copy-mark :
      (q p : Text) (n' : Node F)
      → holds_copy n' id p ≡ true
      → holds_copy (mark_sprayed id q n') id p ≡ true
  unfolding holds_copy member
  holds_copy-mark q p n' h = rw (copy_set-mark q n') (ground arith)

  -- The run of the loop so far has done only what is allowed, and forgot no mark.
  record IsProper (before : List Effect) (r : Routed F) : Type 0 where
    done : List Effect
    split : r.world.trace ≡ done ++ before
    allowed : All IsAllowed done
    marks : (p : Text) → holds_copy n id p ≡ true → holds_copy r.world.node id p ≡ true
    same_id : r.message.id ≡ id
    addressed : r.message.recipient ≡ dst

  unmarked :
      {before : List Effect} (r : Routed F) (p : Text)
      → IsProper before r
      → holds_copy r.world.node id p ≡ false
      → holds_copy n id p ≡ false
  unmarked r p h e = elim (Bool-cases (holds_copy n id p)) [
    | inl t ↦ ground (arith, h.marks p t)
    | inr f ↦ f
  ]

  hand_over-IsProper :
      (before : List Effect) (p : Text) (r : Routed F)
      → IsCandidate p
      → (p ≡ dst) ⊎ (holds_copy n id p ≡ false)
      → IsProper before r
      → IsProper before (hand_over from p r)
  unfolding hand_over
  hand_over-IsProper before p r c f h =
      let told = relay (event RelayAction.forwarded from r.message) in
      record {
        done = direct p r.message ∷ told ∷ h.done;
        split = ap (λ (t : List Effect). direct p r.message ∷ told ∷ t) h.split;
        allowed = ((c, f, h.same_id, h.addressed), (tt, h.allowed));
        marks = λ q hq. rw h.same_id (holds_copy-mark p q r.world.node (h.marks q hq));
        same_id = h.same_id;
        addressed = h.addressed;
      }

  act-IsProper :
      (before : List Effect) (a : SprayAction) (p : Text) (r : Routed F)
      → IsCandidate p
      → (a ≡ deliver → p ≡ dst)
      → (a ≢ deliver → a ≢ keep → a ≢ dup → holds_copy r.world.node id p ≡ false)
      → IsProper before r
      → IsProper before (act a from p r)
  unfolding act
  act-IsProper before deliver p r c d s h = hand_over-IsProper before p r c (inl (d refl)) h
  act-IsProper before spray p r c d s h =
      hand_over-IsProper before p _ c (inr (unmarked r p h (s (λ e. cc) (λ e. cc) (λ e. cc))))
        (record {
          done = h.done;
          split = h.split;
          allowed = h.allowed;
          marks = h.marks;
          same_id = h.same_id;
          addressed = h.addressed;
        })
  act-IsProper before handoff p r c d s h =
      hand_over-IsProper before p r c (inr (unmarked r p h (s (λ e. cc) (λ e. cc) (λ e. cc)))) h
  act-IsProper before keep p r c d s h = h
  act-IsProper before dup p r c d s h = h

  route_loop-IsProper :
      (fl : Floats F) (f : Forwarder) (mine : EncounterStat F) (before : List Effect)
      (ps : List Text) (r : Routed F)
      → All IsCandidate ps
      → IsProper before r
      → IsProper before (route_loop fl f mine from ps r)
  unfolding route_loop route_peer routing_state
  route_loop-IsProper fl f mine before [] r hs h = h
  route_loop-IsProper fl f mine before (p ∷ ps) r hs h =
      route_loop-IsProper fl f mine before ps (route_peer fl f mine from p r) hs.1 (
        act-IsProper before
          (decide fl f (routing_state r.message) p mine (zero_stat fl)
            (holds_copy r.world.node r.message.id p))
          p r hs.0 (destination r p h _) (λ d _ u. fresh r p h d u) h)
    where
      destination :
          (r : Routed F) (p : Text) (h : IsProper before r) (holds : Bool)
          → decide fl f (routing_state r.message) p mine (zero_stat fl) holds ≡ deliver
          → p ≡ dst
      destination r p h holds e =
          (decide-deliver_iff fl (routing_state r.message) p mine (zero_stat fl) f holds).0 e
          ∙ h.addressed

      fresh :
          (r : Routed F) (p : Text) (h : IsProper before r)
          → decide fl f
              (routing_state r.message)
              p
              mine
              (zero_stat fl)
              (holds_copy r.world.node r.message.id p)
            ≢ deliver
          → decide fl f
              (routing_state r.message)
              p
              mine
              (zero_stat fl)
              (holds_copy r.world.node r.message.id p)
            ≢ dup
          → holds_copy r.world.node id p ≡ false
      fresh r p h d u = rw (← h.same_id) (
          decide-fresh fl (routing_state r.message) p mine (zero_stat fl) f
            (holds_copy r.world.node r.message.id p) d u)

-- Routing a message does nothing but tell of relays and hand out copies of it, each to a known peer
-- that is neither this node nor where the message came from, and that is the destination or holds no
-- copy from this node yet.
pub route_to_peers_targets :
    {F : Type 0} (env : Env F) (m : Message) (from : Text) (w : World F)
    → (done : List Effect) × ((route_to_peers env m from w).world.trace ≡ done ++ w.trace)
      × All (IsAllowed w.node m.id m.recipient from) done
unfolding route_to_peers
route_to_peers_targets env m from w =
    let start : IsProper w.node m.id m.recipient from w.trace (record { world = w; message = m }) =
      record {
        done = [];
        split = refl;
        allowed = tt;
        marks = λ p h. h;
        same_id = refl;
        addressed = refl;
      } in
    let end =
      route_loop-IsProper w.node m.id m.recipient from env.floats (the_forwarder w.node)
        (stat_for_destination env.floats w.node m.recipient env.unix) w.trace
        (routing_candidates w.node from) (record { world = w; message = m })
        (routing_candidates-IsCandidate w.node m.id m.recipient from) start in
    (end.done, end.split, end.allowed)
