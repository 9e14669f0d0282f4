-- ===== src/Sim/Pairs.antt =====
-- go-daemon/pkg/routing/sim/sim.go: the pairs that messages are for, and what the movement keeps.
use ripple.Prelude.{
  ℕ, zero, suc, ◌≤◌, ◌<◌, ◌-◌, ◌≡◌, ◌≢◌, refl, ap, ◌∙◌, List, [], ◌∷◌, arith, length, ◌⊎◌,
  Bool-cases, inl, inr,
}
use ripple.Sim.Run.{SimConfig, is_injection}
use ripple.Sim.Motion.{
  Geometry, Area, Walker, Motion, step_all, pick_pair, new_walkers, start_motion, move_on,
  motion_in,
}

module _ {F R : Type 0} (g : Geometry F R) where
  -- `Intn` returns a number below its argument, which is not 0.
  abbrev pub IntnLaw : Type 0
  IntnLaw = (n : ℕ) (r : R) → 0 < n → (g.rand_int n r).0 < n

  pick_pair-distinct :
      (n : ℕ) (r : R)
      → IntnLaw
      → 2 ≤ n
      → ((pick_pair g n r).0.0 < n)
        × ((pick_pair g n r).0.1 < n)
        × ((pick_pair g n r).0.0 ≢ (pick_pair g n r).0.1)
  unfolding pick_pair
  pick_pair-distinct n r law h =
      let (a, r₁) = g.rand_int n r in
      ground (arith, law n r (omega arith), law (n - 1) (g.rand_int n r).1 (omega arith))

  length-step_all :
      (area : Area F) (ns : List (Walker F)) (r : R) → length (step_all g area ns r).0 ≡ length ns
  unfolding step_all
  length-step_all area [] r = refl
  length-step_all area (n ∷ ns) r = ap suc (length-step_all area ns _)

  length-new_walkers :
      (area : Area F) (rounds : ℕ) (r : R) → length (new_walkers g area rounds r).0 ≡ rounds
  unfolding new_walkers
  length-new_walkers area zero r = refl
  length-new_walkers area (suc rounds) r = ap suc (length-new_walkers area rounds _)

  -- A walker for each node, no more messages than configured, and the last one between two nodes.
  record IsFair (cfg : SimConfig) (m : Motion F R) : Type 0 where
    all_there : length m.walkers ≡ cfg.nodes
    within : m.injected ≤ cfg.messages
    from_node : 0 < m.injected → m.pair.0 < cfg.nodes
    to_node : 0 < m.injected → m.pair.1 < cfg.nodes
    between_two : 0 < m.injected → m.pair.0 ≢ m.pair.1

  module _ (area : Area F) (cfg : SimConfig) (law : IntnLaw) (two : 2 ≤ cfg.nodes) where
    move_on-IsFair :
        (tick : ℕ) (m : Motion F R) → IsFair cfg m → IsFair cfg (move_on g area cfg tick m)
    unfolding move_on
    move_on-IsFair tick m h = elim (Bool-cases (is_injection cfg tick m.injected)) [
      | inl now ↦
          let (from, to, ne) = pick_pair-distinct cfg.nodes m.rng law two in
          rw now (record {
            all_there = length-step_all area m.walkers _ ∙ h.all_there;
            within = unfold is_injection in ground (arith, now);
            from_node = λ x. from;
            to_node = λ x. to;
            between_two = λ x. ne;
          })
      | inr not_now ↦ rw not_now (record {
        all_there = length-step_all area m.walkers _ ∙ h.all_there;
        within = h.within;
        from_node = h.from_node;
        to_node = h.to_node;
        between_two = h.between_two;
      })
    ]

    start_motion-IsFair : (r : R) → IsFair cfg (start_motion g area cfg r)
    unfolding start_motion
    start_motion-IsFair r = record {
      all_there = length-new_walkers area cfg.nodes r;
      within = omega arith;
      from_node = λ x. absurd (omega arith);
      to_node = λ x. absurd (omega arith);
      between_two = λ x. absurd (omega arith);
    }

    motion_in-IsFair : (r : R) (tick : ℕ) → IsFair cfg (motion_in g area cfg r tick)
    unfolding motion_in
    motion_in-IsFair r zero = move_on-IsFair 0 _ (start_motion-IsFair r)
    motion_in-IsFair r (suc tick) = move_on-IsFair (suc tick) _ (motion_in-IsFair r tick)

    -- In every tick of a run with two nodes or more there is a place for each node, at most as many messages
    -- were injected as are configured, and the last one, if there is one, is for two different nodes of the
    -- field; `Intn` returns a number below its argument.
    pub motion_in-pair :
        (r : R) (tick : ℕ)
        → (length (motion_in g area cfg r tick).walkers ≡ cfg.nodes)
          × ((motion_in g area cfg r tick).injected ≤ cfg.messages)
          × (((motion_in g area cfg r tick).injected ≡ 0)
              ⊎ (((motion_in g area cfg r tick).pair.0 < cfg.nodes)
                  × ((motion_in g area cfg r tick).pair.1 < cfg.nodes)
                  × ((motion_in g area cfg r tick).pair.0 ≢ (motion_in g area cfg r tick).pair.1)))
    motion_in-pair r tick =
        let fair = motion_in-IsFair r tick in
        let m = motion_in g area cfg r tick in
        (
          fair.all_there,
          fair.within,
          ground (arith, fair.from_node, fair.to_node, fair.between_two),
        )
