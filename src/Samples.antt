-- ===== src/Samples.antt =====
-- Concrete values of what the definitions take as parameters, and messages, for the tests: numbers
-- in hundredths for `float64`, JSON texts that keep one field, an environment and a node.
use ripple.Prelude.{ℕ, zero, suc, ◌+◌, ◌-◌, ◌*◌, ◌/◌, Text, bytes, pos, pos_part, none, some}
use ripple.Prelude.{[], ◌∷◌, true, ltb, leb, is_empty, if◌then◌else◌}
use ripple.Message.{Message, SosPayload, Json}
use ripple.Message.Kinds.{type_chat, type_sos}
use ripple.Routing.{Floats, spray_and_wait}
use ripple.Mesh.Node.{Node, World, Env}

abbrev pub power : ℕ → ℕ → ℕ
power b zero = 100
power b (suc e) = b * power b e / 100

-- A number is so many hundredths.
abbrev pub hundredths : Floats ℕ
hundredths = record {
  zero = 0;
  one = 100;
  p_init = 75;
  beta = 25;
  gamma = 98;
  tiny = 0;
  add = ◌+◌;
  sub = ◌-◌;
  mul = λ a b. a * b / 100;
  pow = power;
  of_int = pos_part;
  lt = ltb;
  le = leb;
}

abbrev pub chat : Text → Text → Text → Text → Message
chat id sender recipient text = record {
  id = id;
  kind = type_chat;
  sender = sender;
  sender_nick = [];
  recipient = recipient;
  payload = text;
  timestamp = pos 5;
  ttl = pos 16;
  hop_count = pos 0;
  spray_budget = pos 0;
  copies_made = pos 1;
  nonce = [];
  key_id = [];
}

abbrev pub help_payload : SosPayload ℕ
help_payload = record {
  urgency = bytes "high";
  message = bytes "help";
  latitude = 1;
  longitude = 2;
  accuracy = 3;
  timestamp = pos 5;
  auto_expire = pos 60;
  ack_required = true;
}

-- Texts that keep the ID of a message, the message ID of an acknowledgement and the key of an exchange.
abbrev pub one_field : Json ℕ
one_field = record {
  of_message = λ m. m.id;
  to_message = λ t. some (chat t (bytes "a") (bytes "z") (bytes "hi"));
  of_delivery = λ i. i.message_id;
  to_delivery = λ t. some (record {
    message_id = t;
    status = bytes "received";
    recipient_peer = [];
    original_sender = [];
    timestamp = pos 0;
    hop_count = pos 0;
    error = [];
  });
  of_sos = λ p. p.message;
  to_sos = λ t. if is_empty t then none else some help_payload;
  of_file = λ p. p.file_id;
  to_file = λ t. none;
  of_key = λ p. p.public_key_hex;
  to_key = λ t. some (record { public_key_hex = t; nickname = []; timestamp = pos 0 });
}

abbrev pub open_air : Env ℕ
open_air = record {
  floats = hundredths;
  json = one_field;
  decode = λ t. if is_empty t then none else some t;
  reaches = λ p. true;
  publishes = true;
  unix = pos 1000;
  nano = pos 1000000;
  ack_id = bytes "ack";
}

-- A node with three peers and a budget of two copies.
abbrev pub node_n : Node ℕ
node_n = record {
  peer_id = bytes "n";
  peers = bytes "a" ∷ bytes "b" ∷ bytes "c" ∷ [];
  seen = [];
  encounters = [];
  sprayed = [];
  spray_budget = pos 2;
  forwarder = some (spray_and_wait (pos 2));
  started = true;
}

abbrev pub world_n : World ℕ
world_n = record { node = node_n; trace = [] }

-- A chat from a to z, who is no peer of n.
abbrev pub to_z : Message
to_z = chat (bytes "m1") (bytes "a") (bytes "z") (bytes "hi")

abbrev pub alarm : Message
alarm = record to_z { id = bytes "s1"; kind = type_sos; recipient = []; payload = bytes "help" }
