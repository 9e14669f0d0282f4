-- ===== src/Routing/Policy.antt =====
-- go-daemon/pkg/routing/routing.go: when a forwarder hands out a copy.
use ripple.Prelude.{Text, ◌≡◌, ◌≢◌, ◌↔◌, Bool, false, arith}
use ripple.Routing.{
  Floats, EncounterStat, MessageState, deliver, dup, Forwarder, spray_and_wait, epidemic, decide,
}

module _ {F : Type 0} (fl : Floats F) (msg : MessageState) (peer : Text)
    (mine theirs : EncounterStat F) where
  -- The destination always receives, whoever forwards and whether or not it holds a copy; nobody else
  -- is delivered to.
  pub decide-deliver_iff :
      (f : Forwarder) (holds : Bool)
      → (decide fl f msg peer mine theirs holds ≡ deliver) ↔ (peer ≡ msg.dst)
  unfolding decide
  decide-deliver_iff (spray_and_wait l) holds = ground arith
  decide-deliver_iff epidemic holds = ground arith

  -- A peer that is neither the destination nor refused as a duplicate holds no copy.
  pub decide-fresh :
      (f : Forwarder) (holds : Bool)
      → decide fl f msg peer mine theirs holds ≢ deliver
      → decide fl f msg peer mine theirs holds ≢ dup
      → holds ≡ false
  unfolding decide
  decide-fresh (spray_and_wait l) holds d u = ground arith
  decide-fresh epidemic holds d u = ground arith
