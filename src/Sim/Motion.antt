-- ===== src/Sim/Motion.antt =====
-- go-daemon/pkg/routing/sim/sim.go: how the nodes move, and the schedule that this makes.
-- float64 and `math/rand`, which the code only calls, are the record `Geometry`, with a generator of type R.
use ripple.Prelude.{
  ℕ, zero, suc, ◌-◌, Text, none, some, List, [], ◌∷◌, Bool, false, leb, if◌then◌else◌,
}
use ripple.Sim.Run.{SimConfig, Schedule, at, is_injection}

pub record Geometry (F R : Type 0) : Type 0 where
  pub zero : F
  pub tiny : F
  pub add : F → F → F
  pub sub : F → F → F
  pub mul : F → F → F
  pub div : F → F → F
  pub hypot : F → F → F
  pub lt : F → F → Bool
  pub le : F → F → Bool
  pub rand_float : R → F × R
  pub rand_int : ℕ → R → ℕ × R

-- `pos`
pub record Pos (F : Type 0) : Type 0 where
  pub x : F
  pub y : F

-- The fields of `Config` that move the nodes.
pub record Area (F : Type 0) : Type 0 where
  pub area_size : F
  pub radio_range : F
  pub min_speed : F
  pub max_speed : F

-- The fields of `node` that move it.
pub record Walker (F : Type 0) : Type 0 where
  pub place : Pos F
  pub target : Pos F
  pub speed : F

-- What moves from tick to tick: the nodes, the generator, and how many messages were injected, with the pair
-- that the last one is for.
pub record Motion (F R : Type 0) : Type 0 where
  pub walkers : List (Walker F)
  pub rng : R
  pub injected : ℕ
  pub pair : ℕ × ℕ

module _ {F R : Type 0} (g : Geometry F R) where
  unfoldable pub random_pos : F → R → Pos F × R
  random_pos size r =
      let (a, r₁) = g.rand_float r in
      let (b, r₂) = g.rand_float r₁ in (record { x = g.mul a size; y = g.mul b size }, r₂)

  unfoldable pub new_waypoint : Area F → Walker F → R → Walker F × R
  new_waypoint cfg n r =
      let (target, r₁) = random_pos cfg.area_size r in
      let (a, r₂) = g.rand_float r₁ in
      (
        record n {
          target = target;
          speed = g.add cfg.min_speed (g.mul a (g.sub cfg.max_speed cfg.min_speed));
        },
        r₂,
      )

  unfoldable pub dist : Pos F → Pos F → F
  dist p q = g.hypot (g.sub p.x q.x) (g.sub p.y q.y)

  unfoldable pub step : Area F → Walker F → R → Walker F × R
  step cfg n r =
      let dx = g.sub n.target.x n.place.x in
      let dy = g.sub n.target.y n.place.y in
      let d = g.hypot dx dy in
      let move = if g.lt d n.speed then d else n.speed in
      let there : Pos F = record {
        x = g.add n.place.x (g.mul (g.div dx d) move);
        y = g.add n.place.y (g.mul (g.div dy d) move);
      } in
      if g.lt d g.tiny then new_waypoint cfg n r else (record n { place = there }, r)

  unfoldable pub step_all : Area F → List (Walker F) → R → List (Walker F) × R
  step_all cfg [] r = ([], r)
  step_all cfg (n ∷ ns) r =
      let (moved, r₁) = step cfg n r in let (rest, r₂) = step_all cfg ns r₁ in (moved ∷ rest, r₂)

  unfoldable pub pick_pair : ℕ → R → (ℕ × ℕ) × R
  pick_pair n r =
      let (a, r₁) = g.rand_int n r in
      let (b, r₂) = g.rand_int (n - 1) r₁ in ((a, if leb a b then suc b else b), r₂)

  unfoldable pub new_walkers : Area F → ℕ → R → List (Walker F) × R
  new_walkers cfg zero r = ([], r)
  new_walkers cfg (suc rounds) r =
      let (p, r₁) = random_pos cfg.area_size r in
      let (n, r₂) = new_waypoint cfg (record { place = p; target = p; speed = g.zero }) r₁ in
      let (rest, r₃) = new_walkers cfg rounds r₂ in (n ∷ rest, r₃)

  unfoldable pub start_motion : Area F → SimConfig → R → Motion F R
  start_motion area cfg r =
      let (ns, r₁) = new_walkers area cfg.nodes r in
      record { walkers = ns; rng = r₁; injected = 0; pair = (0, 0) }

  -- A tick: the pair of a new message, then the moves.
  unfoldable pub move_on : Area F → SimConfig → ℕ → Motion F R → Motion F R
  move_on area cfg tick m =
      let now = is_injection cfg tick m.injected in
      let (pair, r₁) = pick_pair cfg.nodes m.rng in
      let r = if now then r₁ else m.rng in
      let (ns, r₂) = step_all area m.walkers r in
      record {
        walkers = ns;
        rng = r₂;
        injected = if now then suc m.injected else m.injected;
        pair = if now then pair else m.pair;
      }

  -- The motion in a tick, after its moves.
  unfoldable pub motion_in : Area F → SimConfig → R → ℕ → Motion F R
  motion_in area cfg r zero = move_on area cfg 0 (start_motion area cfg r)
  motion_in area cfg r (suc tick) = move_on area cfg (suc tick) (motion_in area cfg r tick)

  -- `dist(nodes[i].pos, nodes[j].pos) <= cfg.RadioRange`
  unfoldable pub in_range : Area F → List (Walker F) → ℕ → ℕ → Bool
  in_range area ns i j = elim (at i ns) [
    | none ↦ false
    | some a ↦ elim (at j ns) [
      | none ↦ false
      | some b ↦ g.le (dist a.place b.place) area.radio_range
    ]
  ]

  -- The schedule of a configuration and a seeded generator.
  unfoldable pub schedule_of : Area F → SimConfig → R → (ℕ → Text) → (ℕ → Text) → Schedule
  schedule_of area cfg r node_name msg_name = record {
    near = λ tick. in_range area (motion_in area cfg r tick).walkers;
    source = λ tick. (motion_in area cfg r tick).pair.0;
    target = λ tick. (motion_in area cfg r tick).pair.1;
    node_name = node_name;
    msg_name = msg_name;
  }
