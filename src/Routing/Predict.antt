-- ===== src/Routing/Predict.antt =====
-- go-daemon/pkg/routing/routing.go: predictabilities stay between 0 and 1.
use ripple.Prelude.{ℕ, Text, ℤ, pos, negsuc, [], ◌∷◌, All, arith}
use ripple.Prelude.{inc, Dict}
use ripple.Routing.{
  Floats, EncounterStat, update_on_encounter, age_predictability, transit_gain, transit,
  transit_all, record_encounter,
}

-- What IEEE arithmetic gives on the numbers between 0 and 1, rounding included: products and
-- complements stay there, a product is at most its first factor, sums are monotone, a number
-- and its rounded complement sum to at most 1, and a power of the aging base stays there if its exponent is not
-- negative.
pub record UnitLaws {F : Type 0} (fl : Floats F) (InUnit : F → Type 0) (Le : F → F → Type 0)
    : Type 0 where
  pub zero_unit : InUnit fl.zero
  pub one_unit : InUnit fl.one
  pub p_init_unit : InUnit fl.p_init
  pub beta_unit : InUnit fl.beta
  pub le_refl : (a : F) → Le a a
  pub le_trans : (a b c : F) → Le a b → Le b c → Le a c
  pub sub_unit : (a : F) → InUnit a → InUnit (fl.sub fl.one a)
  pub mul_unit : (a b : F) → InUnit a → InUnit b → InUnit (fl.mul a b)
  pub mul_le : (a b : F) → InUnit a → InUnit b → Le (fl.mul a b) a
  pub add_unit : (a b : F) → InUnit a → InUnit b → Le b (fl.sub fl.one a) → InUnit (fl.add a b)
  pub pow_unit : (units : ℕ) → InUnit (fl.pow fl.gamma (fl.of_int (pos units)))

module _ {F : Type 0} (fl : Floats F) (InUnit : F → Type 0) (Le : F → F → Type 0)
    (laws : UnitLaws fl InUnit Le) where
  abbrev InRange : EncounterStat F → Type 0
  InRange s = InUnit s.predictability

  -- A first meeting and every later one keep the predictability a probability.
  pub update_on_encounter-InRange :
      (s : EncounterStat F) → InRange s → InRange (update_on_encounter fl s)
  unfolding update_on_encounter
  update_on_encounter-InRange s h =
      let far = laws.sub_unit s.predictability h in
      laws.add_unit _ _ h (laws.mul_unit _ _ far laws.p_init_unit)
        (laws.mul_le _ _ far laws.p_init_unit)

  age_predictability-InRange :
      (units : ℤ) (s : EncounterStat F) → InRange s → InRange (age_predictability fl units s)
  unfolding age_predictability
  age_predictability-InRange (pos n) s h = ground (
    arith,
    laws.zero_unit,
    laws.mul_unit s.predictability (fl.pow fl.gamma (fl.of_int (pos n))) h (laws.pow_unit n),
  )
  age_predictability-InRange (negsuc n) s h = ground (arith, laws.zero_unit)

  transit_gain-Le :
      (p_ac p_ab p_bc : F)
      → InUnit p_ac
      → InUnit p_ab
      → InUnit p_bc
      → InUnit (transit_gain fl p_ac p_ab p_bc)
        × Le (transit_gain fl p_ac p_ab p_bc) (fl.sub fl.one p_ac)
  unfolding transit_gain
  transit_gain-Le p_ac p_ab p_bc hac hab hbc =
      let far = laws.sub_unit p_ac hac in
      let m₁ = laws.mul_unit _ p_ab far hab in
      let m₂ = laws.mul_unit _ p_bc m₁ hbc in
      (
        laws.mul_unit _ _ m₂ laws.beta_unit,
        laws.le_trans _ _ _ (laws.mul_le _ _ m₂ laws.beta_unit)
            (laws.le_trans _ _ _ (laws.mul_le _ _ m₁ hbc) (laws.mul_le _ _ far hab)),
      )

  transit-InRange :
      (p_ab : F) (s : EncounterStat F) (id : Text) (other : EncounterStat F)
      → InUnit p_ab
      → InRange s
      → InRange other
      → InRange (transit fl p_ab s (id, other))
  unfolding transit
  transit-InRange p_ab s id other hab h ho =
      let (unit, le) = transit_gain-Le s.predictability p_ab other.predictability h hab ho in
      ground (arith, laws.one_unit, laws.add_unit s.predictability _ h unit le)

  transit_all-InRange :
      (p_ab : F) (s : EncounterStat F) (others : Dict (EncounterStat F))
      → InUnit p_ab
      → InRange s
      → All (λ e. InRange e.1) others
      → InRange (transit_all fl p_ab s others)
  unfolding transit_all
  transit_all-InRange p_ab s [] hab h hs = h
  transit_all-InRange p_ab s ((id, o) ∷ others) hab h hs =
      transit_all-InRange p_ab (transit fl p_ab s (id, o)) others hab
        (transit-InRange p_ab s id o hab h hs.0) hs.1

  -- Aging a stat and then recording a meeting, with the peer's own stats for the transitivity, leaves
  -- a predictability between 0 and 1 if all were, whatever the number of time units.
  pub meeting-InRange :
      (units now : ℤ) (s : EncounterStat F) (others : Dict (EncounterStat F))
      → InRange s
      → All (λ e. InRange e.1) others
      → InRange (record_encounter fl now others (age_predictability fl units s))
  unfolding record_encounter
  meeting-InRange units now s others h hs =
      let aged = age_predictability fl units s in
      let start = record aged { encounters = inc aged.encounters; last_seen = now } in
      let met = update_on_encounter-InRange start (age_predictability-InRange units s h) in
      transit_all-InRange _ (update_on_encounter fl start) others met met hs
