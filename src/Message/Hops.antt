-- ===== src/Message/Hops.antt =====
-- go-daemon/pkg/message/message.go: the hop counters of a message and the tests on it, and the
-- reading of a message from its JSON text.
use ripple.Prelude.{pos, leb_ℤ, ltb_ℤ, inc, ◌-ℤ◌, Bool, not, is_empty}
use ripple.Prelude.{if◌then◌else◌}
use ripple.Message.{Message}

unfoldable pub is_expired : Message → Bool
is_expired m = leb_ℤ m.ttl (pos 0)

unfoldable pub decrement_ttl : Message → Message
decrement_ttl m = record m {
  ttl = if ltb_ℤ (pos 0) m.ttl then m.ttl -ℤ pos 1 else m.ttl;
  hop_count = inc m.hop_count;
}

unfoldable pub is_encrypted : Message → Bool
is_encrypted m = not (is_empty m.nonce)
