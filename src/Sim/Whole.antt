-- ===== src/Sim/Whole.antt =====
-- go-daemon/pkg/routing/sim/sim.go: over a whole run, the copies of a message stay within the budget.
use ripple.Prelude.{ℕ, zero, suc, ◌≤◌, ◌<◌, ◌^◌, Text, pos, ◌≡◌, refl, some}
use ripple.Prelude.{List, [], arith, All, Dict, lookup, member}
use ripple.Prelude.{Option-cases, inl, inr}
use ripple.Routing.{Floats, MessageState, spray_and_wait}
use ripple.Sim.{SimNode}
use ripple.Sim.Mirror.{count, IsMirrored}
use ripple.Sim.Copies.{made, copy_cap, IsCounted}
use ripple.Sim.Nodes.{All-at, copies}
use ripple.Sim.Run.{SimConfig, Schedule, at, new_sim_node, new_nodes, run_ticks, start_field}
use ripple.Sim.Bound.{FieldSound, run_ticks-FieldSound}

made-capped :
    (l : ℕ) (k : Text) (states : Dict MessageState)
    → IsCounted l states
    → made k states ≤ copy_cap l
unfolding made IsCounted
made-capped l k states h = elim (Option-cases (lookup k states)) [
  | inl none_yet ↦ rw (none_yet, made) (omega arith)
  | inr (st, found) ↦
      let w = h k st found in rw (found, made) (ground (arith, w.counted, w.bounded))
]

module _ (F : Type 0) where
  new_nodes-Mirrored :
      (name : ℕ → Text) (rounds i : ℕ) → All (IsMirrored {F = F}) (new_nodes name rounds i)
  unfolding new_nodes
  new_nodes-Mirrored name zero i = tt
  new_nodes-Mirrored name (suc rounds) i =
      (new_node-IsMirrored (name i), new_nodes-Mirrored name rounds (suc i))
    where
      new_node-IsMirrored : (id : Text) → IsMirrored {F = F} (new_sim_node id)
      new_node-IsMirrored id = unfold IsMirrored new_sim_node count member in λ k. refl

  copies-new_nodes :
      (k : Text) (name : ℕ → Text) (rounds i : ℕ) → copies k (new_nodes {F = F} name rounds i) ≡ 0
  unfolding copies new_nodes new_sim_node count
  copies-new_nodes k name zero i = refl
  copies-new_nodes k name (suc rounds) i = omega (arith, copies-new_nodes k name rounds (suc i))

module _ {F : Type 0} where
  one_each :
      (k : Text) (i : ℕ) (n : SimNode F) (ns : List (SimNode F))
      → All IsMirrored ns
      → at i ns ≡ some n
      → count k n.buf ≤ 1
  unfolding IsMirrored
  one_each k i n ns h e = ground (arith, All-at IsMirrored i n ns h e k)

module _ {F : Type 0} (fl : Floats F) (l : ℕ) (cfg : SimConfig) (sch : Schedule) where
  start_field-FieldSound : FieldSound l sch.msg_name (start_field fl cfg sch)
  unfolding start_field IsCounted
  start_field-FieldSound = record {
    mirrored = new_nodes-Mirrored F sch.node_name cfg.nodes 0;
    counted = λ k st e. absurd (none_found k e);
    within = λ k. omega (arith, copies-new_nodes F k sch.node_name cfg.nodes 0);
    unused = λ j le. unfold lookup in refl;
  }
    where
      none_found : (k : Text) {st : MessageState} → lookup k [] ≡ some st → ⊥
      none_found k e = unfold lookup in cc

  -- In a run of the simulator that sprays with a budget `l` below 2^63 and whose messages have different
  -- names, the copies of a message over all nodes are at every tick within those that its state counts,
  -- which are within the budget (one, if the budget is none), and each node holds a message at most once.
  pub run_ticks-copies :
      (ticks : ℕ) (k : Text)
      → cfg.forwarder ≡ spray_and_wait (pos l)
      → l < 2 ^ 63
      → ((i j : ℕ) → sch.msg_name i ≡ sch.msg_name j → i ≡ j)
      → (copies k (run_ticks fl cfg sch ticks 0 (start_field fl cfg sch)).nodes
          ≤ made k (run_ticks fl cfg sch ticks 0 (start_field fl cfg sch)).states)
        × (made k (run_ticks fl cfg sch ticks 0 (start_field fl cfg sch)).states ≤ copy_cap l)
        × ((i : ℕ) (n : SimNode F)
            → at i (run_ticks fl cfg sch ticks 0 (start_field fl cfg sch)).nodes ≡ some n
            → count k n.buf ≤ 1)
  run_ticks-copies ticks k sprays small distinct =
      let end = run_ticks fl cfg sch ticks 0 (start_field fl cfg sch) in
      let h =
        run_ticks-FieldSound fl l cfg sch ticks 0 (start_field fl cfg sch)
          (record { sprays = sprays; small = small; distinct = distinct }) start_field-FieldSound in
      (
        h.within k,
        made-capped l k end.states h.counted,
        λ i n e. one_each k i n end.nodes h.mirrored e,
      )
