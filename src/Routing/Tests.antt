-- ===== src/Routing/Tests.antt =====
-- The theorems of routing at concrete inputs, and runs of the decision.
use ripple.Prelude.{ℕ, zero, suc, ◌*◌, ◌/◌, ◌≤◌, bytes, ℤ, pos, ◌≡◌, refl, arith}
use ripple.Prelude.{[], ◌∷◌, false, text_dec}
use native.Mathlib.Nat.{mul-le-mul_left}
use native.Mathlib.Decide.{ℕ_discrete}
use ripple.Routing.{
  EncounterStat, MsgKind, MessageState, keep, spray_and_wait, decide, record_encounter,
  age_predictability,
}
use ripple.Routing.Predict.{UnitLaws, meeting-InRange}
use ripple.Samples.{hundredths, power}

product_le : (a b : ℕ) → b ≤ 100 → a * b / 100 ≤ a
product_le a b h = omega (arith, mul-le-mul_left a h)

power_unit : (b e : ℕ) → b ≤ 100 → power b e ≤ 100
power_unit b zero h = omega arith
power_unit b (suc e) h = omega (arith, product_le b (power b e) (power_unit b e h))

-- Hundredths from 0 to 100 obey the laws.
hundredths-UnitLaws : UnitLaws hundredths (λ a. a ≤ 100) (λ a b. a ≤ b)
hundredths-UnitLaws = record {
  zero_unit = omega arith;
  one_unit = omega arith;
  p_init_unit = omega arith;
  beta_unit = omega arith;
  le_refl = λ a. omega arith;
  le_trans = λ a b c p q. omega arith;
  sub_unit = λ a h. omega arith;
  mul_unit = λ a b ha hb. omega (arith, product_le a b hb);
  mul_le = λ a b ha hb. product_le a b hb;
  add_unit = λ a b ha hb le. omega arith;
  pow_unit = λ units. power_unit 98 units (omega arith);
}

abbrev seen_b : EncounterStat ℕ
seen_b = record { peer = bytes "b"; last_seen = pos 3; encounters = pos 1; predictability = 75 }

abbrev never_c : EncounterStat ℕ
never_c = record { peer = bytes "c"; last_seen = pos 0; encounters = pos 0; predictability = 0 }

abbrev to_d : ℤ → MessageState
to_d copies = record {
  id = bytes "m";
  src = bytes "a";
  dst = bytes "d";
  kind = MsgKind.chat;
  created_at = pos 0;
  ttl = pos 9;
  copies_made = copies;
  delivered_at = pos 0;
}

meeting-InRange_example :
    (record_encounter hundredths
      (pos 5)
      ((bytes "c", never_c) ∷ (bytes "d", seen_b) ∷ [])
      (age_predictability hundredths (pos 2) seen_b)).predictability
    ≤ 100
meeting-InRange_example =
    meeting-InRange hundredths (λ a. a ≤ 100) (λ a b. a ≤ b) hundredths-UnitLaws (pos 2) (pos 5)
      seen_b ((bytes "c", never_c) ∷ (bytes "d", seen_b) ∷ []) (omega arith)
      (omega arith, (omega arith, tt))

decide_keeps :
    decide hundredths (spray_and_wait (pos 2)) (to_d (pos 2)) (bytes "e") seen_b never_c false
    ≡ keep
unfolding decide text_dec ℕ_discrete
decide_keeps = refl
