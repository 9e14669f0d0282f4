-- ===== src/Bridge/Tests.antt =====
-- The theorems of the bridge at concrete inputs, and runs.
use ripple.Prelude.{
  ℕ, Text, bytes, pos, ◌≡◌, refl, arith, none, some, List, [], ◌∷◌, ◌++◌, true, false, All, map,
  lookup, text_dec,
}
use ripple.Message.Make.{parse_sos_payload}
use ripple.Mesh.Node.{Effect}
use ripple.Crypto.Manager.{get_peer_key}
use ripple.Crypto.Tests.{
  toy, toy-SealLaws, manager_a, manager_z, IsCoherent-a, IsCoherent-z, copies_of, copies_of-IsByte,
}
use ripple.FileTransfer.Tests.{calm_at}
use ripple.Identity.Tests.{seeds, someone}
use ripple.Bridge.{message_frame, Client, Bridge, WsIncoming, Outside}
use ripple.Bridge.Clients.{
  is_reading, start_pumps, offer, offer_listed, offer_one, send_to, new_client, stop, unlist,
  close_channel,
}
use ripple.Bridge.Feed.{connect, greet, send_identity, handle_mesh_message, feed_sos}
use ripple.Bridge.Requests.{chat_of, seal_chat, handle_incoming, handle_request, send_pong}
use ripple.Bridge.Steps.{new_bridge, on_frame}
use ripple.Bridge.Author.{IsAuthored}
use ripple.Bridge.NoSpoof.{handle_incoming-IsAuthored}
use ripple.Bridge.Secret.{is_request_of, AllUntold, IsUntold, Step-AllUntold}
use ripple.Bridge.Private.{carry, handle_mesh_message-chat}
use ripple.Bridge.Alerts.{alert_frame, feed_sos-twice}
use ripple.Samples.{open_air, world_n, alarm, help_payload}

abbrev hello : WsIncoming
hello = record {
  kind = bytes "chat";
  id = bytes "m1";
  sender = bytes "mallory";
  sender_nick = [];
  recipient = bytes "z";
  payload = bytes "hi";
  timestamp = pos 5;
}

-- Every frame reads as one of that kind.
abbrev around : Text → Outside ℕ Text Text
around kind = record {
  env = open_air;
  transfers = calm_at (bytes "a");
  extension = λ t. bytes ".txt";
  nacl = toy;
  keys = seeds;
  new_id = bytes "0123456789abcdef0123456789abcdef";
  nonce = some (copies_of 24 7);
  now = pos 9;
  milli = pos 8;
  saves = true;
  short_string = λ t. t;
  to_incoming = λ t. some (record hello { kind = kind });
  to_file_path = λ t. some t;
  file_at = λ t. none;
  file_id = bytes "f";
}

-- A client whose pumps run.
abbrev running : ℕ → Client ℕ
running n = record (new_client n) { pumping = true }

abbrev fresh : Bridge ℕ Text Text
fresh = record {
  peer_id = bytes "a";
  nickname = bytes "alice";
  world = world_n;
  e2e = some manager_a;
  identity = some someone;
  sos = some (record { alerts = []; world = world_n; notices = [] });
  files = none;
  clients = running 1 ∷ running 2 ∷ [];
  nicknames = [];
  panicked = false;
}

abbrev at_z : Bridge ℕ Text Text
at_z = record fresh { peer_id = bytes "z"; e2e = some manager_z }

abbrev start : Bridge ℕ Text Text
start = new_bridge (bytes "a") (bytes "alice") world_n (some manager_a) (some someone)

-- A client that connects, is greeted and sends a ping.
abbrev pinged : Bridge ℕ Text Text
pinged = handle_incoming (around (bytes "ping")) 1 [] (greet 1 (connect 1 start))

one_reads : is_reading 1 fresh.clients ≡ true
unfolding is_reading new_client
one_reads = refl

Step-AllUntold_example : AllUntold 2 (handle_incoming (around (bytes "seed_export")) 1 [] fresh)
unfolding is_request_of IsUntold new_client
Step-AllUntold_example =
    Step-AllUntold 2 fresh (handle_incoming (around (bytes "seed_export")) 1 [] fresh)
      (on_frame (around (bytes "seed_export")) 1 [] fresh one_reads) refl
      ((λ e. tt), ((λ e. tt), tt))

handle_incoming-IsAuthored_example :
    (said : List Effect) × ((handle_incoming (around (bytes "chat")) 1 [] fresh).world.trace
      ≡ said ++ fresh.world.trace)
    × All (IsAuthored (bytes "a")) said
handle_incoming-IsAuthored_example = handle_incoming-IsAuthored (around (bytes "chat")) 1 [] fresh

handle_mesh_message-chat_example :
    (handle_mesh_message
      (around [])
      (carry
        (pos 15)
        (pos 1)
        (pos 1)
        (seal_chat (around (bytes "chat")) (chat_of (around (bytes "chat")) hello fresh) fresh).0)
      at_z).clients
    ≡ map
        (offer_listed (
          message_frame
            (carry (pos 15) (pos 1) (pos 1) (chat_of (around (bytes "chat")) hello fresh))
            true))
        at_z.clients
unfolding get_peer_key lookup text_dec
handle_mesh_message-chat_example =
    handle_mesh_message-chat (around (bytes "chat")) (around []) hello fresh at_z manager_a
      manager_z (copies_of 24 7) (pos 15) (pos 1) (pos 1) toy-SealLaws refl refl refl IsCoherent-a
      IsCoherent-z refl refl refl refl
      (record { size = refl; of_bytes = copies_of-IsByte 24 7 (omega arith) })
      (omega arith, (omega arith, tt)) refl refl

feed_sos-twice_example :
    (feed_sos (around []) alarm fresh).clients
    ≡ map
        (offer_listed (alert_frame (around []) alarm))
        (map (offer_listed (alert_frame (around []) alarm)) fresh.clients)
unfolding parse_sos_payload lookup text_dec
feed_sos-twice_example =
    feed_sos-twice (around []) alarm help_payload (bytes "a")
      (record { alerts = []; world = world_n; notices = [] }) fresh refl refl refl refl

-- A ping that is read after the bridge was stopped is answered on a closed channel.
ping_after_stop :
    map (λ c. c.crashed) (handle_incoming (around (bytes "ping")) 1 [] (stop fresh)).clients
    ≡ true ∷ false ∷ []
unfolding handle_incoming handle_request stop unlist close_channel send_pong send_to offer_one offer
    new_client text_dec
ping_after_stop = refl

-- A client that is registered when the bridge is stopped is greeted on a closed channel.
greeted_after_stop : map (λ c. c.crashed) (greet 1 (stop (connect 1 start))).clients ≡ true ∷ []
unfolding new_bridge connect greet send_identity send_to stop unlist close_channel start_pumps
    offer_one offer new_client
greeted_after_stop = refl
