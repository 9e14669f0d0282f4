-- ===== src/Bridge/Steps.antt =====
-- go-daemon/pkg/wsbridge/bridge.go: the bridge as a machine whose steps come in any order.
use ripple.Prelude.{ℕ, Text, ◌≡◌, [], true, false, none, Option}
use ripple.Message.{Message}
use ripple.Mesh.Node.{RelayEvent, World}
use ripple.Crypto.Manager.{Manager}
use ripple.Identity.{Identity}
use ripple.Bridge.{Bridge, Outside}
use ripple.Bridge.Clients.{
  has_client, is_reading, is_waiting, has_pumps, all_pumping, unregister_client, stop, write_pump,
}
use ripple.Bridge.Feed.{
  connect, greet, broadcast_relay, broadcast_sos, broadcast_file, handle_peer_join,
  handle_peer_leave, handle_mesh_message,
}
use ripple.Bridge.Requests.{handle_incoming}

module _ {F P Q : Type 0} where
  -- `NewBridge`
  unfoldable pub new_bridge :
      Text → Text → World F → Option Manager → Option (Identity P Q) → Bridge F P Q
  new_bridge peer_id nickname w e2e identity = record {
    peer_id = peer_id;
    nickname = nickname;
    world = w;
    e2e = e2e;
    identity = identity;
    sos = none;
    files = none;
    clients = [];
    nicknames = [];
    panicked = false;
  }

  -- `handleWS` registers a client, and later greets it and starts its pumps; other steps may come in between.
  -- A frame is read by a read pump, which ends with `unregisterClient`. In these runs `Stop` comes when no
  -- connection is being set up and no frame is being handled, and no frame is read after it: the source does not
  -- see to that, and its handlers write to a client's channel without `clientsMu`. Each step has surroundings of
  -- its own.
  pub data Step : Bridge F P Q → Bridge F P Q → Type 0 where
    on_connect : (n : ℕ) (b : Bridge F P Q) → has_client n b.clients ≡ false → Step b (connect n b)
    on_greet : (n : ℕ) (b : Bridge F P Q) → is_waiting n b.clients ≡ true → Step b (greet n b)
    on_frame :
        (o : Outside F P Q) (n : ℕ) (text : Text) (b : Bridge F P Q)
        → is_reading n b.clients ≡ true
        → Step b (handle_incoming o n text b)
    on_disconnect :
        (n : ℕ) (b : Bridge F P Q) → has_pumps n b.clients ≡ true → Step b (unregister_client n b)
    on_written : (n : ℕ) (b : Bridge F P Q) → Step b (write_pump n b)
    on_mesh_message :
        (o : Outside F P Q) (m : Message) (b : Bridge F P Q) → Step b (handle_mesh_message o m b)
    on_relay : (e : RelayEvent) (b : Bridge F P Q) → Step b (broadcast_relay e b)
    on_join : (o : Outside F P Q) (p : Text) (b : Bridge F P Q) → Step b (handle_peer_join o p b)
    on_leave : (o : Outside F P Q) (p : Text) (b : Bridge F P Q) → Step b (handle_peer_leave o p b)
    on_alert : (o : Outside F P Q) (m : Message) (b : Bridge F P Q) → Step b (broadcast_sos o m b)
    on_file : (o : Outside F P Q) (m : Message) (b : Bridge F P Q) → Step b (broadcast_file o m b)
    on_stop : (b : Bridge F P Q) → all_pumping b.clients ≡ true → Step b (stop b)

  -- What a run from one bridge reaches.
  pub data Reaches : Bridge F P Q → Bridge F P Q → Type 0 where
    at_start : (b : Bridge F P Q) → Reaches b b
    then_step : (a b c : Bridge F P Q) → Reaches a b → Step b c → Reaches a c
