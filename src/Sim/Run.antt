-- ===== src/Sim/Run.antt =====
-- go-daemon/pkg/routing/sim/sim.go: `Run`, tick by tick.
use ripple.Prelude.{
  ℕ, zero, suc, ◌-◌, ◌/◌, ◌%◌, Text, ℤ, pos, Option, none, some, List, [], ◌∷◌, ◌++◌,
}
use ripple.Prelude.{Bool, false, not, ◌&&◌, ◌||◌, Dict, lookup, insert, map, sort, ltb, leb, ◌==◌}
use ripple.Prelude.{ltb_ℤ, ◌+ℤ◌, if◌then◌else◌}
use ripple.Routing.{
  Floats, EncounterStat, MsgKind, MessageState, Forwarder, age_predictability, expired,
}
use ripple.Sim.{BufEntry, SimNode, Delivery, is_delivered}
use ripple.Sim.Exchange.{meet}

-- `Config`, less what only moves the nodes.
pub record SimConfig : Type 0 where
  pub nodes : ℕ
  pub messages : ℕ
  pub injection_from : ℕ
  pub injection_to : ℕ
  pub ttl : ℤ
  pub duration : ℕ
  pub forwarder : Forwarder

-- What the random source and the geometry decide (`schedule_of` in Motion): who is within radio range in a
-- tick, which nodes the message of a tick is from and to, and the names that `Sprintf` makes of a number.
pub record Schedule : Type 0 where
  pub near : ℕ → ℕ → ℕ → Bool
  pub source : ℕ → ℕ
  pub target : ℕ → ℕ
  pub node_name : ℕ → Text
  pub msg_name : ℕ → Text

-- The variables of `Run`.
pub record Field (F : Type 0) : Type 0 where
  pub nodes : List (SimNode F)
  pub states : Dict MessageState
  pub delivered : Dict Delivery
  pub injected : ℕ
  pub msg_seq : ℕ

module _ {ℓ} {A : Type ℓ} where
  -- `xs[i]`, and `xs[i] = x`
  unfoldable pub at : ℕ → List A → Option A
  at i [] = none
  at zero (x ∷ xs) = some x
  at (suc i) (x ∷ xs) = at i xs

  unfoldable pub put_at : ℕ → A → List A → List A
  put_at i y [] = []
  put_at zero y (x ∷ xs) = y ∷ xs
  put_at (suc i) y (x ∷ xs) = x ∷ put_at i y xs

-- The inner loop over `j`, with the rounds to go, and the outer one over `i`.
unfoldable pub contacts_of : (ℕ → Bool) → ℕ → ℕ → ℕ → List (ℕ × ℕ)
contacts_of near i zero j = []
contacts_of near i (suc rounds) j =
    let rest = contacts_of near i rounds (suc j) in if near j then (i, j) ∷ rest else rest

unfoldable pub contacts : (ℕ → ℕ → Bool) → ℕ → ℕ → List (ℕ × ℕ)
contacts near zero i = []
contacts near (suc rounds) i = contacts_of (near i) i rounds (suc i) ++ contacts near rounds (suc i)

unfoldable pub in_contact : ℕ → List (ℕ × ℕ) → Bool
in_contact i [] = false
in_contact i ((j, k) ∷ cs) = (i == j || i == k) || in_contact i cs

-- The sweep of a buffer.
unfoldable pub sweep_buf : Dict MessageState → ℤ → List BufEntry → List BufEntry
sweep_buf states tick [] = []
sweep_buf states tick (e ∷ es) =
    let rest = sweep_buf states tick es in
    let keeps : Bool = elim (lookup e.msg states) [
      | none ↦ false
      | some st ↦ is_delivered st || not (expired st tick)
    ] in
    if keeps then e ∷ rest else rest

-- Whether the tick injects a message, where so many were injected before it.
unfoldable pub is_injection : SimConfig → ℕ → ℕ → Bool
is_injection cfg tick injected =
    let gap = (cfg.injection_to - cfg.injection_from) / (cfg.messages - 1) in
    let stride = if ltb 1 cfg.messages then (if ltb 1 gap then gap else 1) else 1 in
    (ltb injected cfg.messages && leb cfg.injection_from tick)
    && ((tick - cfg.injection_from) % stride == 0)

module _ {F : Type 0} where
  unfoldable pub new_sim_node : Text → SimNode F
  new_sim_node id = record { id = id; stats = []; buf = []; has = [] }

  unfoldable pub new_nodes : (ℕ → Text) → ℕ → ℕ → List (SimNode F)
  new_nodes name zero i = []
  new_nodes name (suc rounds) i = new_sim_node (name i) ∷ new_nodes name rounds (suc i)

  abbrev pub node_id : ℕ → List (SimNode F) → Text
  node_id i ns = elim (at i ns) [ none ↦ [] | some n ↦ n.id ]

  -- The copy that the source of a message holds.
  unfoldable pub take_own : Text → SimNode F → SimNode F
  take_own id n = record n {
    has = id ∷ n.has;
    buf = n.buf ++ (record { msg = id; hops = pos 0 } ∷ []);
  }

  -- A new message.
  unfoldable pub inject : ℕ → ℤ → Schedule → Field F → Field F
  inject tick ttl sch w =
      let id = sch.msg_name w.msg_seq in
      let src = sch.source tick in
      let st : MessageState = record {
        id = id;
        src = node_id src w.nodes;
        dst = node_id (sch.target tick) w.nodes;
        kind = MsgKind.chat;
        created_at = pos tick;
        ttl = ttl;
        copies_made = pos 1;
        delivered_at = pos 0;
      } in
      elim (at src w.nodes) [
        | none ↦ w
        | some n ↦ record w {
          nodes = put_at src (take_own id n) w.nodes;
          states = insert id st w.states;
          injected = suc w.injected;
          msg_seq = suc w.msg_seq;
        }
      ]

  -- The sweep of a node, whose presence map is made anew.
  unfoldable pub sweep : Dict MessageState → ℤ → SimNode F → SimNode F
  sweep states tick n =
      let kept = sweep_buf states tick n.buf in record n { buf = kept; has = map (λ e. e.msg) kept }

module _ {F : Type 0} (fl : Floats F) where
  -- The meeting of two nodes of the field.
  unfoldable pub meet_at : Forwarder → ℤ → ℕ × ℕ → Field F → Field F
  meet_at f tick (i, j) w = elim (at i w.nodes) [
    | none ↦ w
    | some a ↦ elim (at j w.nodes) [
      | none ↦ w
      | some b ↦
          let p =
            meet fl f tick (record { a = a; b = b; states = w.states; delivered = w.delivered }) in
          record w {
            nodes = put_at j p.b (put_at i p.a w.nodes);
            states = p.states;
            delivered = p.delivered;
          }
    ]
  ]

  unfoldable pub meet_all : Forwarder → ℤ → List (ℕ × ℕ) → Field F → Field F
  meet_all f tick [] w = w
  meet_all f tick (c ∷ cs) w = meet_all f tick cs (meet_at f tick c w)

  -- `AgeUnits` is 1. The order in which the entries are aged is of no effect.
  unfoldable pub age_stats : Dict (EncounterStat F) → Dict (EncounterStat F)
  age_stats [] = []
  age_stats ((id, st) ∷ rest) = (id, age_predictability fl (pos 1) st) ∷ age_stats rest

  unfoldable pub age_lonely : List (ℕ × ℕ) → ℕ → List (SimNode F) → List (SimNode F)
  age_lonely cs i [] = []
  age_lonely cs i (n ∷ ns) =
      let aged = record n { stats = age_stats n.stats } in
      (if in_contact i cs then n else aged) ∷ age_lonely cs (suc i) ns

  -- The loop's body.
  unfoldable pub tick_once : SimConfig → Schedule → ℕ → Field F → Field F
  tick_once cfg sch tick w =
      let begun = if is_injection cfg tick w.injected then inject tick cfg.ttl sch w else w in
      let cs = contacts (sch.near tick) cfg.nodes 0 in
      let met = meet_all cfg.forwarder (pos tick) cs begun in
      record met { nodes = map (sweep met.states (pos tick)) (age_lonely cs 0 met.nodes) }

  unfoldable pub run_ticks : SimConfig → Schedule → ℕ → ℕ → Field F → Field F
  run_ticks cfg sch zero tick w = w
  run_ticks cfg sch (suc rounds) tick w =
      run_ticks cfg sch rounds (suc tick) (tick_once cfg sch tick w)

  unfoldable pub start_field : SimConfig → Schedule → Field F
  start_field cfg sch = record {
    nodes = new_nodes sch.node_name cfg.nodes 0;
    states = [];
    delivered = [];
    injected = 0;
    msg_seq = 0;
  }

-- `Outcome`, less the configuration.
pub record Outcome : Type 0 where
  pub delivered : ℕ
  pub total : ℕ
  pub latency : List ℤ
  pub hops : List ℤ
  pub copies : ℤ

-- The accounting over the IDs: a message without a delivery has the zero value.
unfoldable pub account : Dict MessageState → Dict Delivery → List Text → Outcome → Outcome
account states delivered [] out = out
account states delivered (id ∷ ids) out = elim (lookup id states) [
  | none ↦ account states delivered ids out
  | some st ↦
      let counted = record out { copies = out.copies +ℤ st.copies_made } in
      let d : Delivery = elim (lookup id delivered) [
        | none ↦ record { latency = pos 0; hops = pos 0 }
        | some x ↦ x
      ] in
      let won = record counted {
        delivered = suc out.delivered;
        latency = out.latency ++ (d.latency ∷ []);
        hops = out.hops ++ (d.hops ∷ []);
      } in
      account states delivered ids (if ltb_ℤ (pos 0) st.delivered_at then won else counted)
]

unfoldable pub outcome_of : {F : Type 0} → Field F → Outcome
outcome_of w =
    account w.states w.delivered (sort (map (λ e. e.0) w.states))
      (record { delivered = 0; total = w.injected; latency = []; hops = []; copies = pos 0 })

-- `Run`: `none` is an error in the configuration.
unfoldable pub run_sim : {F : Type 0} → Floats F → SimConfig → Schedule → Option Outcome
run_sim fl cfg sch =
    if ltb cfg.nodes 2 || leb cfg.injection_to cfg.injection_from
    then none
    else some (outcome_of (run_ticks fl cfg sch cfg.duration 0 (start_field fl cfg sch)))
