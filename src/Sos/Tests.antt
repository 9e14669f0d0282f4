-- ===== src/Sos/Tests.antt =====
-- The theorems of the alerts at concrete sequences.
use ripple.Prelude.{ℕ, bytes, pos, ◌≡◌, List, [], ◌∷◌, none, lookup, text_dec}
use native.Mathlib.Decide.{ℕ_discrete}
use ripple.Message.Make.{parse_sos_payload}
use ripple.Sos.{Manager, new_alert, check_expiry, is_over}
use ripple.Sos.Expiry.{expiries, has_expired, check_expiry_lem}
use ripple.Sos.Once.{
  Event, incoming, delivery_ack, re_broadcast, receipts, is_taken, on_events, comes_in,
  on_events-notify_once,
}
use ripple.Samples.{open_air, world_n, help_payload, alarm, to_z}

abbrev quiet : Manager ℕ
quiet = record { alerts = []; world = world_n; notices = [] }

-- The alert arrives, is acknowledged, and arrives again behind a re-broadcast.
abbrev evening : List (Event ℕ)
evening =
    incoming open_air (pos 10) alarm
    ∷ delivery_ack open_air (pos 11) (record to_z { payload = bytes "s1" })
    ∷ re_broadcast open_air (pos 12)
    ∷ incoming open_air (pos 13) alarm
    ∷ []

on_events-notify_once_example : receipts (bytes "s1") (on_events evening quiet).notices ≡ 1
unfolding receipts comes_in is_taken parse_sos_payload lookup text_dec ℕ_discrete
on_events-notify_once_example = on_events-notify_once (bytes "s1") evening quiet

-- An alert of a time long past, and one that lasts.
abbrev two_alerts : Manager ℕ
two_alerts = record quiet {
  alerts =
      (bytes "s1", record (new_alert alarm help_payload (bytes "a") (pos 0)) { expires_at = pos 5 })
      ∷ (
        bytes "s2",
        record (new_alert alarm help_payload (bytes "a") (pos 0)) { expires_at = pos 50 },
      )
      ∷ [];
}

check_expiry_lem_example :
    (lookup (bytes "s1") (check_expiry open_air (pos 9) two_alerts).alerts ≡ none)
    × (expiries (bytes "s1") (check_expiry open_air (pos 9) two_alerts).notices ≡ 1)
unfolding has_expired is_over lookup text_dec ℕ_discrete expiries
check_expiry_lem_example = check_expiry_lem open_air (pos 9) (bytes "s1") two_alerts
