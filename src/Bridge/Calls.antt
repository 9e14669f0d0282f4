-- ===== src/Bridge/Calls.antt =====
-- go-daemon/pkg/wsbridge/bridge.go: a message that a client gives to the node, and what the node tells the
-- bridge meanwhile.
use ripple.Prelude.{List, [], ◌∷◌, ◌++◌, Bool}
use ripple.Message.{Message}
use ripple.Mesh.Node.{
  Effect, relay, publish, direct, on_message, on_peer_join, on_peer_leave, World,
}
use ripple.Mesh.Handle.{send_message}
use ripple.FileTransfer.{
  Callback, on_started, on_progress, on_complete, on_failed, on_file_notification,
}
use ripple.Bridge.{Bridge, Outside}
use ripple.Bridge.Feed.{
  broadcast_relay, broadcast_file, handle_mesh_message, handle_peer_join, handle_peer_leave,
}

-- A node with nothing done yet.
abbrev pub at_rest : {F : Type 0} → World F → World F
at_rest w = record w { trace = [] }

module _ {F P Q : Type 0} (o : Outside F P Q) where
  -- What the callbacks that `Start` installs do, for the newest effects first, without the handlers that they wrap.
  unfoldable pub hear : List Effect → Bridge F P Q → Bridge F P Q
  hear [] b = b
  hear (relay e ∷ earlier) b = broadcast_relay e (hear earlier b)
  hear (on_message m ∷ earlier) b = handle_mesh_message o m (hear earlier b)
  hear (on_peer_join p ∷ earlier) b = handle_peer_join o p (hear earlier b)
  hear (on_peer_leave p ∷ earlier) b = handle_peer_leave o p (hear earlier b)
  hear (publish m ∷ earlier) b = hear earlier b
  hear (direct p m ∷ earlier) b = hear earlier b

  -- The bridge after a call of the node, which started with nothing done yet.
  unfoldable pub after_call : World F → Bridge F P Q → Bridge F P Q
  after_call w b = hear w.trace (record b { world = record w { trace = w.trace ++ b.world.trace } })

  -- `c.bridge.node.SendMessage`
  unfoldable pub send_mesh : Message → Bridge F P Q → Bridge F P Q × Bool
  send_mesh msg b =
      let sent = send_message o.env msg (at_rest b.world) in (after_call sent.0 b, sent.1)

  -- `OnFileNotification`, which the daemon wires to `BroadcastFileNotification`; it sets no other callback.
  unfoldable pub hear_files : List (Callback F) → Bridge F P Q → Bridge F P Q
  hear_files [] b = b
  hear_files (on_file_notification m ∷ earlier) b = broadcast_file o m (hear_files earlier b)
  hear_files (on_started id ∷ earlier) b = hear_files earlier b
  hear_files (on_progress id x ∷ earlier) b = hear_files earlier b
  hear_files (on_complete id ∷ earlier) b = hear_files earlier b
  hear_files (on_failed id why ∷ earlier) b = hear_files earlier b
