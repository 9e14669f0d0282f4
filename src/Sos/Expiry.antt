-- ===== src/Sos/Expiry.antt =====
-- go-daemon/pkg/sos/sos.go: `checkExpiry` removes the alerts that are over, and tells of each.
use ripple.Prelude.{ℕ, ◌+◌, Text, ◌≡◌, refl, none, some, List, [], ◌∷◌, Bool, false, arith}
use ripple.Prelude.{ℤ, Dict, lookup, erase, lookup-erase, map, member, text_eq, ◌&&◌, if◌then◌else◌}
use ripple.Mesh.Node.{Env}
use ripple.Sos.{
  ActiveAlert, Manager, Notice, on_sos_expired, is_over, expire_loop, tell_expired, check_expiry,
}

abbrev keys {ℓ} : {V : Type ℓ} → Dict V → List Text
keys = map (λ e. e.0)

-- How often an ID is among the IDs.
unfoldable count : Text → List Text → ℕ
count k [] = 0
count k (j ∷ js) = (if text_eq k j then 1 else 0) + count k js

module _ {F : Type 0} where
  -- How often the bridge was told that an alert is over.
  unfoldable pub expiries : Text → List (Notice F) → ℕ
  expiries k [] = 0
  expiries k (on_sos_expired j ∷ ns) = (if text_eq k j then 1 else 0) + expiries k ns
  expiries k (_ ∷ ns) = expiries k ns

module _ {F : Type 0} (env : Env F) (now : ℤ) where
  -- The map has the alert, and its time is over.
  unfoldable pub has_expired : Text → Dict (ActiveAlert F) → Bool
  has_expired k alerts = elim (lookup k alerts) [ none ↦ false | some a ↦ is_over env now a ]

  keys-lookup :
      (k : Text) (alerts : Dict (ActiveAlert F))
      → member k (keys alerts) ≡ false
      → lookup k alerts ≡ none
  unfolding member lookup
  keys-lookup k [] h = refl
  keys-lookup k ((j, a) ∷ alerts) h = ground (arith, keys-lookup k alerts)

  expire_loop_lem :
      (k : Text) (ids : List Text) (alerts : Dict (ActiveAlert F)) (removed : List Text)
      → (lookup k (expire_loop env now ids alerts removed).0
          ≡ (if member k ids && has_expired k alerts then none else lookup k alerts))
        × (count k (expire_loop env now ids alerts removed).1
            ≡ (if member k ids && has_expired k alerts then 1 else 0) + count k removed)
  unfolding expire_loop member has_expired count
  expire_loop_lem k [] alerts removed = ground arith
  expire_loop_lem k (j ∷ ids) alerts removed = ground (
    arith,
    expire_loop_lem k ids alerts removed,
    expire_loop_lem k ids (erase j alerts) (j ∷ removed),
    lookup-erase j k alerts,
  )

  tell_expired_lem :
      (k : Text) (ids : List Text) (m : Manager F)
      → ((tell_expired env now ids m).alerts ≡ m.alerts)
        × (expiries k (tell_expired env now ids m).notices ≡ count k ids + expiries k m.notices)
  unfolding tell_expired expiries count
  tell_expired_lem k [] m = (refl, omega arith)
  tell_expired_lem k (id ∷ ids) m =
      ground (arith, tell_expired_lem k ids (record m { notices = on_sos_expired id ∷ m.notices }))

  -- After `checkExpiry` an alert that is over is gone and every other one is as it was; the bridge is told
  -- of an alert that is over exactly once, and of no other.
  pub check_expiry_lem :
      (k : Text) (m : Manager F)
      → (lookup k (check_expiry env now m).alerts
          ≡ (if has_expired k m.alerts then none else lookup k m.alerts))
        × (expiries k (check_expiry env now m).notices
            ≡ (if has_expired k m.alerts then 1 else 0) + expiries k m.notices)
  unfolding check_expiry has_expired count
  check_expiry_lem k m =
      let p = expire_loop env now (keys m.alerts) m.alerts [] in
      ground (
        arith,
        expire_loop_lem k (keys m.alerts) m.alerts [],
        tell_expired_lem k p.1 (record m { alerts = p.0 }),
        keys-lookup k m.alerts,
      )
