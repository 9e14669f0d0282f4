-- ===== src/Bridge/Clients.antt =====
-- go-daemon/pkg/wsbridge/bridge.go: the clients and their channels.
use ripple.Prelude.{
  ℕ, List, [], ◌∷◌, ◌++◌, Bool, true, false, map, length, ltb, ◌==◌, ◌&&◌, ◌||◌, if◌then◌else◌,
}
use ripple.Bridge.{Frame, Client, Bridge}

-- `sendBufSize`
abbrev pub send_buf_size : ℕ
send_buf_size = 256

module _ {F : Type 0} where
  -- `select { case c.send <- data: default: }`
  unfoldable pub offer : Frame F → Client F → Client F
  offer f c =
      if c.closed
      then record c { crashed = true }
      else if ltb (length c.queue) send_buf_size
      then record c { queue = c.queue ++ (f ∷ []) }
      else c

  -- `close(client.send)`
  unfoldable pub close_channel : Client F → Client F
  close_channel c = if c.closed then record c { crashed = true } else record c { closed = true }

  -- The loop of `broadcast` over the map, which visits each listed client once.
  unfoldable pub offer_listed : Frame F → Client F → Client F
  offer_listed f c = if c.listed then offer f c else c

  unfoldable pub offer_one : ℕ → Frame F → Client F → Client F
  offer_one n f c = if c.num == n then offer f c else c

  unfoldable pub unlist : Client F → Client F
  unlist c = if c.listed then close_channel (record c { listed = false }) else c

  unfoldable pub unlist_one : ℕ → Client F → Client F
  unlist_one n c = if c.num == n then unlist c else c

  -- What `writePump` takes off the channel.
  unfoldable pub take_frame : ℕ → Client F → Client F
  take_frame n c =
      let rest : List (Frame F) = elim c.queue [ [] ↦ [] | f ∷ fs ↦ fs ] in
      if c.num == n then record c { queue = rest } else c

  -- `make(chan []byte, sendBufSize)`, listed.
  unfoldable pub new_client : ℕ → Client F
  new_client n = record {
    num = n;
    queue = [];
    listed = true;
    pumping = false;
    closed = false;
    crashed = false;
  }

  unfoldable pub start_pumps : ℕ → Client F → Client F
  start_pumps n c = if c.num == n then record c { pumping = true } else c

  -- The read pump of the client runs, and its channel was not closed.
  unfoldable pub is_reading : ℕ → List (Client F) → Bool
  is_reading n [] = true
  is_reading n (c ∷ cs) =
      (if c.num == n then (if c.closed then false else c.pumping) else true) && is_reading n cs

  -- `handleWS` of the client has not started its pumps.
  unfoldable pub is_waiting : ℕ → List (Client F) → Bool
  is_waiting n [] = true
  is_waiting n (c ∷ cs) =
      (if c.num == n then (if c.pumping then false else true) else true) && is_waiting n cs

  -- The pumps of the client run.
  unfoldable pub has_pumps : ℕ → List (Client F) → Bool
  has_pumps n [] = true
  has_pumps n (c ∷ cs) = (if c.num == n then c.pumping else true) && has_pumps n cs

  -- No client is between its registration and the start of its pumps.
  unfoldable pub all_pumping : List (Client F) → Bool
  all_pumping [] = true
  all_pumping (c ∷ cs) = c.pumping && all_pumping cs

  unfoldable pub has_client : ℕ → List (Client F) → Bool
  has_client n [] = false
  has_client n (c ∷ cs) = c.num == n || has_client n cs

module _ {F P Q : Type 0} where
  abbrev pub with_clients : (Client F → Client F) → Bridge F P Q → Bridge F P Q
  with_clients f b = record b { clients = map f b.clients }

  unfoldable pub broadcast : Frame F → Bridge F P Q → Bridge F P Q
  broadcast f b = with_clients (offer_listed f) b

  -- A frame for one client only.
  unfoldable pub send_to : ℕ → Frame F → Bridge F P Q → Bridge F P Q
  send_to n f b = with_clients (offer_one n f) b

  -- `unregisterClient`
  unfoldable pub unregister_client : ℕ → Bridge F P Q → Bridge F P Q
  unregister_client n b = with_clients (unlist_one n) b

  -- `Stop`, for the clients.
  unfoldable pub stop : Bridge F P Q → Bridge F P Q
  stop b = with_clients unlist b

  -- A round of `writePump`.
  unfoldable pub write_pump : ℕ → Bridge F P Q → Bridge F P Q
  write_pump n b = with_clients (take_frame n) b
