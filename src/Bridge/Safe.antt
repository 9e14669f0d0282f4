-- ===== src/Bridge/Safe.antt =====
-- go-daemon/pkg/wsbridge/bridge.go: no channel is closed twice or written after its close, and no queue
-- outgrows its buffer.
use ripple.Prelude.{ℕ, ◌≤◌, ◌≡◌, ◌∙◌, [], ◌∷◌, true, false, arith, All, length, length-append, ◌==◌}
use ripple.Crypto.Manager.{Manager}
use ripple.Identity.{Identity}
use ripple.Bridge.{Frame, Client, Bridge}
use ripple.Bridge.Clients.{offer, offer_one}
use ripple.Prelude.{by_test}

module _ {F : Type 0} where
  -- No panic so far, an open channel while the client is listed or not yet greeted, and a queue within the buffer.
  pub record IsSafe (c : Client F) : Type 0 where
    pub calm : c.crashed ≡ false
    pub live : c.listed ≡ true → c.closed ≡ false
    pub set_up : c.pumping ≡ false → c.closed ≡ false
    pub fits : length c.queue ≤ 256

  -- Also open, if it is the one that reads.
  record IsServed (n : ℕ) (c : Client F) : Type 0 where
    safe : IsSafe c
    open_now : (c.num == n) ≡ true → c.closed ≡ false

  offer-IsSafe : (f : Frame F) (c : Client F) → c.closed ≡ false → IsSafe c → IsSafe (offer f c)
  unfolding offer
  offer-IsSafe f c e h = record {
    calm = ground (arith, e, h.calm);
    live = λ l. ground (arith, h.live);
    set_up = λ l. ground (arith, h.set_up);
    fits = ground (arith, h.fits, length-append c.queue (f ∷ []));
  }

  pub offer-num : (f : Frame F) (c : Client F) → (offer f c).num ≡ c.num
  unfolding offer
  offer-num f c = ground arith

  offer-closed : (f : Frame F) (c : Client F) → (offer f c).closed ≡ c.closed
  unfolding offer
  offer-closed f c = ground arith

  offer-IsServed :
      (n : ℕ) (f : Frame F) (c : Client F)
      → c.closed ≡ false
      → IsServed n c
      → IsServed n (offer f c)
  offer-IsServed n f c e h = record {
    safe = offer-IsSafe f c e h.safe;
    open_now = λ same. offer-closed f c ∙ e;
  }

  offer_one-IsServed :
      (n : ℕ) (f : Frame F) (c : Client F) → IsServed n c → IsServed n (offer_one n f c)
  unfolding offer_one
  offer_one-IsServed n f c h =
      by_test (IsServed n) (c.num == n) (λ e. offer-IsServed n f c (h.open_now e) h) (λ e. h)

  offer_one-IsSafe :
      (n : ℕ) (f : Frame F) (c : Client F)
      → ((c.num == n) ≡ true → c.closed ≡ false)
      → IsSafe c
      → IsSafe (offer_one n f c)
  offer_one-IsSafe n f c e h = (offer_one-IsServed n f c (record { safe = h; open_now = e })).safe

module _ {F P Q : Type 0} where
  -- Every client is safe.
  abbrev pub AllSafe : Bridge F P Q → Type 0
  AllSafe b = All IsSafe b.clients
