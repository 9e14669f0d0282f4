-- ===== src/Mesh/Chain.antt =====
-- go-daemon/pkg/mesh/mesh.go: how far a message for all travels along a row of nodes, each of which hears the
-- one before it.
use ripple.Prelude.{
  either, ℕ, zero, suc, Text, pos, ◌≡◌, refl, ap, ap₂, sym, ◌∙◌, Option, none, some, List, [], ◌∷◌,
  arith, All, take, drop, ◌-ℤ◌, Bool, true, false, is_empty, member, text_eq, ltb_ℤ, Option-cases,
  Bool-cases, inl, inr, if_true, if_false, if◌then◌else◌,
}
use ripple.Message.{Message}
use ripple.Message.Hops.{decrement_ttl}
use ripple.Mesh.Node.{
  RelayAction, Effect, relay, publish, direct, on_message, on_peer_join, on_peer_leave, Node, World,
  Env, add_peer, note_encounter, emit, emit_relay,
}
use ripple.Mesh.Handle.{
  is_routed, publish_message, forward_message, forwarded_message, is_foreign, add_sender, relay_on,
  wants_ack, acknowledge, arrival, deliver_new, deliver_message,
}

-- The message that was put on the topic last.
unfoldable pub published : List Effect → Option Message
published [] = none
published (publish m ∷ es) = some m
published (relay e ∷ es) = published es
published (direct p m ∷ es) = published es
published (on_message m ∷ es) = published es
published (on_peer_join p ∷ es) = published es
published (on_peer_leave p ∷ es) = published es

-- Whether the application was handed a message of the ID.
unfoldable pub is_told : Text → List Effect → Bool
is_told id [] = false
is_told id (on_message m ∷ es) = if text_eq id m.id then true else is_told id es
is_told id (publish m ∷ es) = is_told id es
is_told id (relay e ∷ es) = is_told id es
is_told id (direct p m ∷ es) = is_told id es
is_told id (on_peer_join p ∷ es) = is_told id es
is_told id (on_peer_leave p ∷ es) = is_told id es

-- The application of a node was handed the message.
abbrev pub IsTold : {F : Type 0} → Text → World F → Type 0
IsTold id w = is_told id w.trace ≡ true

text_eq_refl : (t : Text) → text_eq t t ≡ true
text_eq_refl t = ground arith

module _ {F : Type 0} (env : Env F) where
  -- The first node gets the message, and each further one what the node before it published.
  unfoldable pub relay_along : Text → List (World F) → Message → List (World F)
  relay_along from [] m = []
  relay_along from (w ∷ ws) m =
      let reached = deliver_message env m from w in
      elim (published reached.trace) [
        | none ↦ reached ∷ ws
        | some next ↦ reached ∷ relay_along w.node.peer_id ws next
      ]

  -- A running node with a name, which did nothing yet, did not see the message and did not send it.
  pub record IsReady (m : Message) (w : World F) : Type 0 where
    pub idle : w.trace ≡ []
    pub unseen : member m.id w.node.seen ≡ false
    pub runs : w.node.started ≡ true
    pub named : is_empty w.node.peer_id ≡ false
    pub foreign : is_foreign env w.node m ≡ true

  -- What is known of a world on the way: nothing published, and the node as it was.
  record IsOnTheWay (n : Node F) (w : World F) : Type 0 where
    none_published : published w.trace ≡ none
    runs_on : w.node.started ≡ n.started
    same_name : w.node.peer_id ≡ n.peer_id

  arrival-IsOnTheWay :
      (m : Message) (from : Text) (w : World F)
      → w.trace ≡ []
      → IsOnTheWay w.node (arrival env m from w)
  unfolding arrival note_encounter published
  arrival-IsOnTheWay m from w idle = record {
    none_published = ap published idle;
    runs_on = ground arith;
    same_name = ground arith;
  }

  add_sender-IsOnTheWay :
      (m : Message) (n : Node F) (w : World F) → IsOnTheWay n w → IsOnTheWay n (add_sender env m w)
  unfolding add_sender
  add_sender-IsOnTheWay m n w h = elim (Option-cases (env.decode m.sender)) [
    | inl unknown ↦ rw (unknown, add_sender) h
    | inr (pid, known) ↦
        rw (known, add_sender) (either (IsOnTheWay n) (text_eq pid w.node.peer_id) h (joined pid))
  ]
    where
      joined : (pid : Text) → IsOnTheWay n (add_peer pid w)
      joined pid =
          unfold add_peer in
          either (IsOnTheWay n) (member pid w.node.peers) h (record {
            none_published = unfold published in h.none_published;
            runs_on = h.runs_on;
            same_name = h.same_name;
          })

  -- What relaying leaves of a message for all.
  abbrev onward : Message → Message
  onward m = if ltb_ℤ (pos 0) m.ttl then decrement_ttl m else m

  abbrev passed : Message → Option Message
  passed m = if ltb_ℤ (pos 0) m.ttl then some (decrement_ttl m) else none

  not_routed : (n : Node F) (m : Message) → m.recipient ≡ [] → is_routed n m ≡ false
  unfolding is_routed
  not_routed n m all = ground (arith, ap is_empty all)

  -- A message for all is put on the topic.
  forward_message-for_all :
      (m : Message) (from : Text) (w : World F)
      → env.publishes ≡ true
      → m.recipient ≡ []
      → w.node.started ≡ true
      → forward_message env m from w ≡ emit (publish m) (emit_relay RelayAction.forwarded from m w)
  unfolding forward_message publish_message
  forward_message-for_all m from w pubs all runs =
      if_false _ (not_routed w.node m all)
      ∙ if_true _ runs
      ∙ ap (λ (p : World F × Bool). p.0) (if_true _ pubs)

  relay_on-for_all :
      (m : Message) (from : Text) (w : World F)
      → env.publishes ≡ true
      → m.recipient ≡ []
      → w.node.started ≡ true
      → is_foreign env w.node m ≡ true
      → relay_on env m from w ≡ (
          if ltb_ℤ (pos 0) m.ttl
          then (
            decrement_ttl m,
            emit
                (publish (decrement_ttl m))
                (emit_relay RelayAction.forwarded from (decrement_ttl m) w),
          )
          else (m, emit_relay RelayAction.dropped from m w))
  unfolding relay_on
  relay_on-for_all m from w pubs all runs foreign =
      let kept : forwarded_message env (decrement_ttl m) from w ≡ decrement_ttl m =
        unfold forwarded_message in
        if_false _ (not_routed w.node (decrement_ttl m) (unfold decrement_ttl in all)) in
      if_true _ foreign
      ∙ ap₂
          (λ x y.
            if ltb_ℤ (pos 0) m.ttl then (x, y) else (m, emit_relay RelayAction.dropped from m w))
          kept
          (forward_message-for_all (decrement_ttl m) from w pubs (unfold decrement_ttl in all) runs)

  -- A message for all is not acknowledged by a node with a name.
  acknowledge-for_all :
      (m : Message) (w : World F)
      → m.recipient ≡ []
      → is_empty w.node.peer_id ≡ false
      → acknowledge env m w ≡ w
  unfolding acknowledge wants_ack
  acknowledge-for_all m w all named = if_false _ (unasked w.node m all named)
    where
      unasked :
          (n : Node F) (m : Message)
          → m.recipient ≡ []
          → is_empty n.peer_id ≡ false
          → wants_ack env n m ≡ false
      unasked n m all named =
          unfold wants_ack in ground (arith, all, named, apart m.recipient n.peer_id all named)
        where
          apart : (r name : Text) → r ≡ [] → is_empty name ≡ false → text_eq r name ≡ false
          apart r name e h = ground (arith, e, ap is_empty e, h)

  foreign_by_name :
      (n n' : Node F) (m : Message)
      → n'.peer_id ≡ n.peer_id
      → is_foreign env n m ≡ true
      → is_foreign env n' m ≡ true
  unfolding is_foreign
  foreign_by_name n n' m same h = ap (λ id. is_foreign env (record n { peer_id = id }) m) same ∙ h

  -- The world after a new message, by what relaying left.
  arrived :
      (m x : Message) (from : Text) (w v : World F)
      → member m.id w.node.seen ≡ false
      → relay_on env m from (add_sender env m (arrival env m from w)) ≡ (x, v)
      → x.recipient ≡ []
      → is_empty v.node.peer_id ≡ false
      → deliver_message env m from w ≡ emit (on_message x) v
  unfolding deliver_message deliver_new
  arrived m x from w v unseen relayed all named =
      if_false _ unseen
      ∙ ap (λ (p : Message × World F). acknowledge env p.0 (emit (on_message p.0) p.1)) relayed
      ∙ acknowledge-for_all x (emit (on_message x) v) all named

  -- A new message for all at a node that is ready reaches the application, and goes on the topic if it has
  -- hops left.
  hop :
      (m : Message) (from : Text) (w : World F)
      → env.publishes ≡ true
      → m.recipient ≡ []
      → IsReady m w
      → (is_told m.id (deliver_message env m from w).trace ≡ true)
        × (published (deliver_message env m from w).trace ≡ passed m)
  hop m from w pubs all r =
      let v = add_sender env m (arrival env m from w) in
      let way = add_sender-IsOnTheWay m w.node _ (arrival-IsOnTheWay m from w r.idle) in
      let name = ap is_empty way.same_name ∙ r.named in
      let relayed =
        relay_on-for_all m from v pubs all (way.runs_on ∙ r.runs)
          (foreign_by_name w.node v.node m way.same_name r.foreign) in
      elim (Bool-cases (ltb_ℤ (pos 0) m.ttl)) [
        | inl live ↦
            let x = decrement_ttl m in
            let end =
              arrived m x from w (emit (publish x) (emit_relay RelayAction.forwarded from x v))
                r.unseen (relayed ∙ if_true _ live) (unfold decrement_ttl in all) name in
            (
              ap (λ (u : World F). is_told m.id u.trace) end
                  ∙ unfold is_told decrement_ttl in if_true _ (text_eq_refl m.id),
              ap (λ (u : World F). published u.trace) end
                  ∙ unfold published in sym (if_true _ live),
            )
        | inr over ↦
            let end =
              arrived m m from w (emit_relay RelayAction.dropped from m v) r.unseen
                (relayed ∙ if_false _ over) all name in
            (
              ap (λ (u : World F). is_told m.id u.trace) end
                  ∙ unfold is_told in if_true _ (text_eq_refl m.id),
              ap (λ (u : World F). published u.trace) end
                  ∙ unfold published in (way.none_published ∙ sym (if_false _ over)),
            )
      ]

  IsReady-decrement : (m : Message) (w : World F) → IsReady m w → IsReady (decrement_ttl m) w
  unfolding decrement_ttl is_foreign
  IsReady-decrement m w r = record {
    idle = r.idle;
    unseen = r.unseen;
    runs = r.runs;
    named = r.named;
    foreign = r.foreign;
  }

  All-IsReady :
      (m : Message) (ws : List (World F)) → All (IsReady m) ws → All (IsReady (decrement_ttl m)) ws
  All-IsReady m [] h = tt
  All-IsReady m (w ∷ ws) h = (IsReady-decrement m w h.0, All-IsReady m ws h.1)

  fewer_hops : (m : Message) (t : ℕ) → m.ttl ≡ pos (suc t) → (decrement_ttl m).ttl ≡ pos t
  unfolding decrement_ttl ◌-ℤ◌
  fewer_hops m t e = ground (arith, e)

  -- A message for all with t hops left reaches the application of the first t + 1 nodes of a row that are
  -- ready for it, and the nodes behind them are as they were, if the topic takes every message.
  pub relay_along-reach :
      (t : ℕ) (from : Text) (ws : List (World F)) (m : Message)
      → env.publishes ≡ true
      → m.recipient ≡ []
      → m.ttl ≡ pos t
      → All (IsReady m) ws
      → All (IsTold m.id) (take (suc t) (relay_along from ws m))
        × (drop (suc t) (relay_along from ws m) ≡ drop (suc t) ws)
  unfolding relay_along decrement_ttl
  relay_along-reach t from [] m pubs all left ready = (tt, refl)
  relay_along-reach zero from (w ∷ ws) m pubs all left ready =
      let (told, last) = hop m from w pubs all ready.0 in
      let over : published (deliver_message env m from w).trace ≡ none =
        last ∙ if_false {b = ltb_ℤ (pos 0) m.ttl} _ (ground (arith, left)) in
      rw (over, relay_along) ((told, tt), refl)
  relay_along-reach (suc t) from (w ∷ ws) m pubs all left ready =
      let (told, last) = hop m from w pubs all ready.0 in
      let next : published (deliver_message env m from w).trace ≡ some (decrement_ttl m) =
        last ∙ if_true {b = ltb_ℤ (pos 0) m.ttl} _ (ground (arith, left)) in
      let (rest, still) =
        relay_along-reach t w.node.peer_id ws (decrement_ttl m) pubs all (fewer_hops m t left)
          (All-IsReady m ws ready.1) in
      rw (next, relay_along) ((told, rest), still)
