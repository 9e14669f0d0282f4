-- ===== src/Routing.antt =====
-- go-daemon/pkg/routing/routing.go: what a node remembers of another, and the decision of a forwarder.
-- A `float64` is a value of a type `F` with the operations of `Floats`, since there are no
-- floating-point numbers here; a Go map that is only ranged over is the list of its entries, in the
-- order in which the range visits them.
pub mod Predict
pub mod Policy
mod Tests
use ripple.Prelude.{Text, ℤ, pos, Bool, true, false, text_eq, ltb_ℤ, leb_ℤ, ◌-ℤ◌, inc, wrap64}
use ripple.Prelude.{[], ◌∷◌, Dict, ◌&&◌, ◌||◌, not, if◌then◌else◌}

-- The arithmetic of `float64` and `math.Pow`, with the constants of the package.
pub record Floats (F : Type 0) : Type 0 where
  pub zero : F
  pub one : F
  pub p_init : F
  pub beta : F
  pub gamma : F
  pub tiny : F
  pub add : F → F → F
  pub sub : F → F → F
  pub mul : F → F → F
  pub pow : F → F → F
  pub of_int : ℤ → F
  pub lt : F → F → Bool
  pub le : F → F → Bool

pub record EncounterStat (F : Type 0) : Type 0 where
  pub peer : Text
  pub last_seen : ℤ
  pub encounters : ℤ
  pub predictability : F

pub data MsgKind : Type 0 where
  chat ack sos : MsgKind

pub record MessageState : Type 0 where
  pub id : Text
  pub src : Text
  pub dst : Text
  pub kind : MsgKind
  pub created_at : ℤ
  pub ttl : ℤ
  pub copies_made : ℤ
  pub delivered_at : ℤ

pub data SprayAction : Type 0 where
  deliver spray handoff keep dup : SprayAction

-- The implementations of the interface `Forwarder`.
pub data Forwarder : Type 0 where
  spray_and_wait : ℤ → Forwarder
  epidemic : Forwarder

module _ {F : Type 0} (fl : Floats F) where
  -- `EncounterStat{Peer: p}`
  unfoldable pub fresh_stat : Text → EncounterStat F
  fresh_stat p = record {
    peer = p;
    last_seen = pos 0;
    encounters = pos 0;
    predictability = fl.zero;
  }

  unfoldable pub update_on_encounter : EncounterStat F → EncounterStat F
  update_on_encounter s =
      let p = s.predictability in
      record s { predictability = fl.add p (fl.mul (fl.sub fl.one p) fl.p_init) }

  unfoldable pub age_predictability : ℤ → EncounterStat F → EncounterStat F
  age_predictability units s =
      let p = fl.mul s.predictability (fl.pow fl.gamma (fl.of_int units)) in
      if leb_ℤ units (pos 0)
      then s
      else record s { predictability = if fl.lt p fl.tiny then fl.zero else p }

  unfoldable pub transit_gain : F → F → F → F
  transit_gain p_ac p_ab p_bc = fl.mul (fl.mul (fl.mul (fl.sub fl.one p_ac) p_ab) p_bc) fl.beta

  -- One round of the loop over the peer's stats; `p_ab` is the fresh predictability.
  unfoldable pub transit : F → EncounterStat F → Text × EncounterStat F → EncounterStat F
  transit p_ab s (id, other) =
      let p = fl.add s.predictability (transit_gain s.predictability p_ab other.predictability) in
      if text_eq id s.peer || fl.le other.predictability fl.zero
      then s
      else record s { predictability = if fl.lt fl.one p then fl.one else p }

  unfoldable pub transit_all : F → EncounterStat F → Dict (EncounterStat F) → EncounterStat F
  transit_all p_ab s [] = s
  transit_all p_ab s (other ∷ others) = transit_all p_ab (transit p_ab s other) others

  unfoldable pub record_encounter : ℤ → Dict (EncounterStat F) → EncounterStat F → EncounterStat F
  record_encounter now peer_stats s =
      let met = update_on_encounter (record s { encounters = inc s.encounters; last_seen = now }) in
      transit_all met.predictability met peer_stats

  -- `AgeUnits` is 1.
  unfoldable pub aging : EncounterStat F → ℤ → ℤ
  aging s now = if leb_ℤ now s.last_seen then pos 0 else wrap64 (now -ℤ s.last_seen)

  unfoldable pub decide :
      Forwarder → MessageState → Text → EncounterStat F → EncounterStat F → Bool → SprayAction
  decide (spray_and_wait l) msg peer mine theirs holds =
      if text_eq peer msg.dst
      then deliver
      else if holds
      then dup
      else if ltb_ℤ msg.copies_made l
      then spray
      else if fl.lt mine.predictability theirs.predictability
      then handoff
      else keep
  decide epidemic msg peer mine theirs holds =
      if text_eq peer msg.dst then deliver else if holds then dup else spray

-- `Expired`
unfoldable pub expired : MessageState → ℤ → Bool
expired m now =
    (ltb_ℤ m.delivered_at (pos 0) || ltb_ℤ (pos 0) m.delivered_at)
    || leb_ℤ m.ttl (wrap64 (now -ℤ m.created_at))

unfoldable pub creates_copy : SprayAction → Bool
creates_copy spray = true
creates_copy _ = false

unfoldable pub moves_copy : SprayAction → Bool
moves_copy handoff = true
moves_copy deliver = true
moves_copy _ = false

unfoldable pub keeps_copy : SprayAction → Bool
keeps_copy keep = true
keeps_copy spray = true
keeps_copy dup = true
keeps_copy _ = false
