-- ===== src/Sim.antt =====
-- go-daemon/pkg/routing/sim/sim.go: the simulator of a network whose nodes meet now and then.
-- A message is the pointer to its state, which its ID stands for: the states are a map by ID, and a
-- copy in a buffer names its message. The run reads a `Schedule`: who is near whom in each tick, and which
-- pair a message is for. Motion makes it from the floating-point geometry and the random source.
pub mod Exchange
pub mod Run
pub mod Motion
pub mod Pairs
pub mod Mirror
pub mod Copies
pub mod Budget
pub mod Nodes
pub mod Bound
pub mod Whole
mod Tests
use ripple.Prelude.{
  ℕ, Text, ℤ, pos, Option, none, some, List, [], ◌∷◌, ◌++◌, Bool, true, false, Dict, lookup, insert,
}
use ripple.Prelude.{member, remove, text_eq, ◌||◌, ltb_ℤ, if◌then◌else◌}
use ripple.Routing.{Floats, EncounterStat, MessageState, fresh_stat, record_encounter}

-- `bufEntry`: a copy of a message, and the hops that it took.
pub record BufEntry : Type 0 where
  pub msg : Text
  pub hops : ℤ

-- `node`, less its place and its way, which are the `Walker` of Motion.
pub record SimNode (F : Type 0) : Type 0 where
  pub id : Text
  pub stats : Dict (EncounterStat F)
  pub buf : List BufEntry
  pub has : List Text

-- `delivery`
pub record Delivery : Type 0 where
  pub latency : ℤ
  pub hops : ℤ

-- Whether the buffer has a copy of the message.
unfoldable pub is_in_buf : Text → List BufEntry → Bool
is_in_buf id [] = false
is_in_buf id (e ∷ es) = text_eq id e.msg || is_in_buf id es

unfoldable pub drop_first : Text → List BufEntry → List BufEntry
drop_first id [] = []
drop_first id (e ∷ es) = if text_eq id e.msg then es else e ∷ drop_first id es

-- `msg.DeliveredAt != 0`
unfoldable pub is_delivered : MessageState → Bool
is_delivered st = ltb_ℤ st.delivered_at (pos 0) || ltb_ℤ (pos 0) st.delivered_at

module _ {F : Type 0} where
  unfoldable pub give : BufEntry → SimNode F → SimNode F
  give e n = record n { has = e.msg ∷ n.has; buf = n.buf ++ (e ∷ []) }

  unfoldable pub has_copy : Text → SimNode F → Bool
  has_copy id n = member id n.has

  unfoldable pub drop_from : Text → SimNode F → SimNode F
  drop_from id n =
      if is_in_buf id n.buf
      then record n { buf = drop_first id n.buf; has = remove id n.has }
      else n

module _ {F : Type 0} (fl : Floats F) where
  -- `statFor`
  unfoldable pub stat_for : Dict (EncounterStat F) → Text → EncounterStat F
  stat_for snap dst = elim (lookup dst snap) [ none ↦ fresh_stat fl dst | some st ↦ st ]

  -- `updateEncounter`, of the table of the first node. A missing entry reads as the zero value.
  unfoldable pub update_encounter : ℤ → SimNode F → SimNode F → SimNode F
  update_encounter tick a b =
      let st : EncounterStat F = elim (lookup b.id a.stats) [
        | none ↦ fresh_stat fl []
        | some s ↦ s
      ] in
      record a { stats = insert b.id (record_encounter fl tick b.stats st) a.stats }
