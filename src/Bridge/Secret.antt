-- ===== src/Bridge/Secret.antt =====
-- go-daemon/pkg/wsbridge/bridge.go: who is shown the backup phrase.
use ripple.Prelude.{
  ℕ, ◌≡◌, ◌≢◌, refl, List, [], ◌∷◌, ◌++◌, Bool, true, false, arith, All, All-append, ◌==◌, length,
  ltb,
}
use ripple.Bridge.{Frame, Client, Bridge}
use ripple.Bridge.Clients.{
  offer, offer_listed, offer_one, close_channel, unlist, unlist_one, take_frame, new_client,
  start_pumps, send_to, unregister_client, stop, write_pump, send_buf_size,
}
use ripple.Bridge.Feed.{
  connect, greet, send_identity, broadcast_relay, broadcast_sos, handle_peer_join,
  handle_peer_leave,
}
use ripple.Bridge.Steps.{
  Step, on_connect, on_greet, on_frame, on_disconnect, on_written, on_mesh_message, on_relay,
  on_join, on_leave, on_alert, on_file, on_stop,
}
use ripple.Prelude.{by_test}
use ripple.Bridge.Keeps.{
  is_seed, All-map, broadcast-keeps, broadcast_file-keeps, handle_mesh_message-keeps,
}
use ripple.Bridge.Safe.{offer-num}
use ripple.Bridge.Served.{handle_incoming-keeps}

module _ {F : Type 0} where
  abbrev IsHarmless : Frame F → Type 0
  IsHarmless f = is_seed f ≡ false

  -- The client with the number has no frame with the phrase.
  unfoldable pub IsUntold : ℕ → Client F → Type 0
  IsUntold v c = (c.num == v) ≡ true → All IsHarmless c.queue

  offer-IsUntold :
      (v : ℕ) (f : Frame F) (c : Client F)
      → is_seed f ≡ false
      → IsUntold v c
      → IsUntold v (offer f c)
  unfolding offer
  offer-IsUntold v f c e h =
      by_test (IsUntold v) c.closed (λ x. same h)
        (λ x. by_test (IsUntold v) (ltb (length c.queue) send_buf_size) (λ y. more h) (λ y. h))
    where
      same : IsUntold v c → IsUntold v (record c { crashed = true })
      same k = unfold IsUntold in k

      more : IsUntold v c → IsUntold v (record c { queue = c.queue ++ (f ∷ []) })
      more k = unfold IsUntold in λ m. All-append IsHarmless c.queue (f ∷ []) (k m) (e, tt)

  offer_listed-IsUntold :
      (v : ℕ) (f : Frame F) (c : Client F)
      → is_seed f ≡ false
      → IsUntold v c
      → IsUntold v (offer_listed f c)
  unfolding offer_listed
  offer_listed-IsUntold v f c e h =
      by_test (IsUntold v) c.listed (λ x. offer-IsUntold v f c e h) (λ x. h)

  offer_one-IsUntold :
      (v n : ℕ) (f : Frame F) (c : Client F) → n ≢ v → IsUntold v c → IsUntold v (offer_one n f c)
  unfolding offer_one
  offer_one-IsUntold v n f c ne h = by_test (IsUntold v) (c.num == n) another (λ e. h)
    where
      another : (c.num == n) ≡ true → IsUntold v (offer f c)
      another e = unfold IsUntold in λ m. absurd (apart e m (offer-num f c))
        where
          apart : (c.num == n) ≡ true → ((offer f c).num == v) ≡ true → (offer f c).num ≡ c.num → ⊥
          apart e m same = ne (ground arith)

  offer_one-harmless :
      (v n : ℕ) (f : Frame F) (c : Client F)
      → is_seed f ≡ false
      → IsUntold v c
      → IsUntold v (offer_one n f c)
  unfolding offer_one
  offer_one-harmless v n f c e h =
      by_test (IsUntold v) (c.num == n) (λ x. offer-IsUntold v f c e h) (λ x. h)

  unlist-IsUntold : (v : ℕ) (c : Client F) → IsUntold v c → IsUntold v (unlist c)
  unfolding unlist close_channel
  unlist-IsUntold v c h =
      by_test (IsUntold v) c.listed
        (λ e. by_test (IsUntold v) c.closed (λ x. unfold IsUntold in h) (λ x. unfold IsUntold in h))
        (λ e. h)

  unlist_one-IsUntold : (v n : ℕ) (c : Client F) → IsUntold v c → IsUntold v (unlist_one n c)
  unfolding unlist_one
  unlist_one-IsUntold v n c h =
      by_test (IsUntold v) (c.num == n) (λ e. unlist-IsUntold v c h) (λ e. h)

  start_pumps-IsUntold : (v n : ℕ) (c : Client F) → IsUntold v c → IsUntold v (start_pumps n c)
  unfolding start_pumps
  start_pumps-IsUntold v n c h =
      by_test (IsUntold v) (c.num == n) (λ e. unfold IsUntold in h) (λ e. h)

  take_frame-IsUntold : (v n : ℕ) (c : Client F) → IsUntold v c → IsUntold v (take_frame n c)
  unfolding take_frame IsUntold
  take_frame-IsUntold v n c h =
      by_test (IsUntold v) (c.num == n) (λ e m. rest c.queue (h m)) (λ e. h)
    where
      rest :
          (fs : List (Frame F))
          → All IsHarmless fs
          → All IsHarmless (elim fs [ [] ↦ [] | x ∷ xs ↦ xs ])
      rest [] hs = tt
      rest (x ∷ xs) hs = hs.1

module _ {F P Q : Type 0} where
  -- A frame from the client with the number.
  unfoldable pub is_request_of : (v : ℕ) {b c : Bridge F P Q} → Step b c → Bool
  is_request_of v (on_frame o n text b reads) = n == v
  is_request_of v (on_connect n b new) = false
  is_request_of v (on_greet n b new) = false
  is_request_of v (on_disconnect n b runs) = false
  is_request_of v (on_written n b) = false
  is_request_of v (on_mesh_message o m b) = false
  is_request_of v (on_relay e b) = false
  is_request_of v (on_join o p b) = false
  is_request_of v (on_leave o p b) = false
  is_request_of v (on_alert o m b) = false
  is_request_of v (on_file o m b) = false
  is_request_of v (on_stop b quiet) = false

  -- No client with the number has a frame with the phrase.
  abbrev pub AllUntold : ℕ → Bridge F P Q → Type 0
  AllUntold v b = All (IsUntold v) b.clients

  connect-AllUntold : (v n : ℕ) (b : Bridge F P Q) → AllUntold v b → AllUntold v (connect n b)
  unfolding connect
  connect-AllUntold v n b h = ((unfold IsUntold new_client in λ m. tt), h)

  greet-AllUntold : (v n : ℕ) (b : Bridge F P Q) → AllUntold v b → AllUntold v (greet n b)
  unfolding greet send_identity send_to
  greet-AllUntold v n b h =
      All-map (IsUntold v) (start_pumps n) (send_identity n b).clients (start_pumps-IsUntold v n)
        (All-map (IsUntold v) (offer_one n _) b.clients (λ c. offer_one-harmless v n _ c refl) h)

  -- Whatever the bridge does but answer the client itself, a client that has not been shown the backup phrase
  -- is not shown it: also not by another client's export.
  pub Step-AllUntold :
      (v : ℕ) (b c : Bridge F P Q) (s : Step b c)
      → is_request_of v s ≡ false
      → AllUntold v b
      → AllUntold v c
  unfolding is_request_of unregister_client write_pump stop broadcast_relay handle_peer_join
      handle_peer_leave broadcast_sos
  Step-AllUntold v b c (on_connect n _ new) e h = connect-AllUntold v n b h
  Step-AllUntold v b c (on_greet n _ new) e h = greet-AllUntold v n b h
  Step-AllUntold v b c (on_frame o n text _ reads) e h =
      handle_incoming-keeps (IsUntold v) n (λ f x k. offer_listed-IsUntold v f x k)
        (λ f x. offer_one-IsUntold v n f x (ground arith)) o text b h
  Step-AllUntold v b c (on_disconnect n _ runs) e h =
      All-map (IsUntold v) (unlist_one n) b.clients (unlist_one-IsUntold v n) h
  Step-AllUntold v b c (on_written n _) e h =
      All-map (IsUntold v) (take_frame n) b.clients (take_frame-IsUntold v n) h
  Step-AllUntold v b c (on_mesh_message o m _) e h =
      handle_mesh_message-keeps (IsUntold v) (offer_listed-IsUntold v) o m b h
  Step-AllUntold v b c (on_relay x _) e h =
      broadcast-keeps (IsUntold v) (offer_listed-IsUntold v) _ b refl h
  Step-AllUntold v b c (on_join o p _) e h =
      broadcast-keeps (IsUntold v) (offer_listed-IsUntold v) _ b refl h
  Step-AllUntold v b c (on_leave o p _) e h =
      broadcast-keeps (IsUntold v) (offer_listed-IsUntold v) _ b refl h
  Step-AllUntold v b c (on_alert o m _) e h =
      broadcast-keeps (IsUntold v) (offer_listed-IsUntold v) _ b refl h
  Step-AllUntold v b c (on_file o m _) e h =
      broadcast_file-keeps (IsUntold v) (offer_listed-IsUntold v) o m b h
  Step-AllUntold v b c (on_stop _ quiet) e h =
      All-map (IsUntold v) unlist b.clients (unlist-IsUntold v) h
