-- ===== src/Sim/Bound.antt =====
-- go-daemon/pkg/routing/sim/sim.go: every tick keeps the copies of a message within those that are counted.
use ripple.Prelude.{ℕ, zero, suc, ◌+◌, ◌≤◌, ◌<◌, ◌^◌, Text, ℤ, pos, ◌≡◌, refl, ◌∙◌, none, some}
use ripple.Prelude.{List, [], ◌∷◌, arith, All, Dict, lookup, lookup-insert, member}
use ripple.Prelude.{text_eq, text_dec, Option-cases, Bool-cases, inl, inr, if◌then◌else◌}
use ripple.Routing.{Floats, MsgKind, MessageState, spray_and_wait}
use ripple.Sim.{SimNode}
use ripple.Sim.Exchange.{Contact, meet}
use ripple.Sim.Mirror.{once, count, count-append, IsMirrored}
use ripple.Sim.Copies.{made, made-insert, IsCounted, IsCounted-insert}
use ripple.Sim.Budget.{meet-Sound}
use ripple.Sim.Nodes.{
  IsOrdered, contacts-IsOrdered, at-put_at, All-at, All-put_at, copies, copies-put_at, count-copies,
  sweep-All-Mirrored, copies-sweep, copies-age_lonely, age_lonely-Mirrored,
}
use ripple.Sim.Run.{
  SimConfig, Schedule, Field, at, put_at, contacts, node_id, take_own, inject, is_injection,
  meet_at, meet_all, age_lonely, tick_once, run_ticks,
}

-- What holds of the field between two steps, for a budget of `l` and the names of the messages.
pub record FieldSound {F : Type 0} (l : ℕ) (name : ℕ → Text) (w : Field F) : Type 0 where
  pub mirrored : All IsMirrored w.nodes
  pub counted : IsCounted l w.states
  pub within : (k : Text) → copies k w.nodes ≤ made k w.states
  pub unused : (j : ℕ) → w.msg_seq ≤ j → lookup (name j) w.states ≡ none

made-none : (k : Text) (states : Dict MessageState) → lookup k states ≡ none → made k states ≡ 0
unfolding made
made-none k states e = rw (e, made)

module _ {F : Type 0} (l : ℕ) (name : ℕ → Text) where
  take_own-IsMirrored :
      (id : Text) (n : SimNode F) → count id n.buf ≡ 0 → IsMirrored n → IsMirrored (take_own id n)
  unfolding IsMirrored take_own member count
  take_own-IsMirrored id n none_yet h k =
      ground
        (arith, h k, h id, none_yet, count-append k n.buf (record { msg = id; hops = pos 0 } ∷ []))

  count-take_own :
      (k id : Text) (n : SimNode F)
      → count k (take_own id n).buf ≡ count k n.buf + once (text_eq k id)
  unfolding take_own count
  count-take_own k id n =
      ground (arith, count-append k n.buf (record { msg = id; hops = pos 0 } ∷ []))

  inject-FieldSound :
      (tick : ℕ) (ttl : ℤ) (sch : Schedule) (w : Field F)
      → ((i j : ℕ) → sch.msg_name i ≡ sch.msg_name j → i ≡ j)
      → FieldSound l sch.msg_name w
      → FieldSound l sch.msg_name (inject tick ttl sch w)
  unfolding inject
  inject-FieldSound tick ttl sch w inj h = elim (Option-cases (at (sch.source tick) w.nodes)) [
    | inl out_of_range ↦ rw (out_of_range, inject) h
    | inr (n, found) ↦
        let id = sch.msg_name w.msg_seq in
        let st : MessageState = record {
          id = id;
          src = node_id (sch.source tick) w.nodes;
          dst = node_id (sch.target tick) w.nodes;
          kind = MsgKind.chat;
          created_at = pos tick;
          ttl = ttl;
          copies_made = pos 1;
          delivered_at = pos 0;
        } in
        let new = h.unused w.msg_seq (omega arith) in
        let none_yet : copies id w.nodes ≡ 0 =
          omega (arith, h.within id, made-none id w.states new) in
        let not_here : count id n.buf ≡ 0 =
          omega (arith, count-copies id (sch.source tick) n w.nodes found) in
        let mine =
          take_own-IsMirrored id n not_here (All-at IsMirrored _ n w.nodes h.mirrored found) in
        rw (found, inject)
          (record {
            mirrored =
                All-put_at IsMirrored (sch.source tick) (take_own id n) w.nodes h.mirrored mine;
            counted =
                IsCounted-insert l id st w.states h.counted
                  (record { copies = 1; counted = refl; bounded = ground arith });
            within = λ k. ground (
              arith,
              h.within k,
              none_yet,
              made-insert k id st w.states,
              copies-put_at k (sch.source tick) n (take_own id n) w.nodes found,
              count-take_own k id n,
            );
            unused = λ j le. elim (text_dec (sch.msg_name j) id) [
              | yes same ↦ absurd (later (inj j w.msg_seq same) le)
              | no other ↦
                  ground
                    (arith, h.unused j (omega arith), lookup-insert id (sch.msg_name j) st w.states)
            ];
          })
  ]
    where
      later : {j : ℕ} → j ≡ w.msg_seq → suc w.msg_seq ≤ j → ⊥
      later e le = omega arith

module _ {F : Type 0} (fl : Floats F) (l : ℕ) (name : ℕ → Text) (tick : ℤ) where
  meet_at-FieldSound :
      (c : ℕ × ℕ) (w : Field F)
      → l < 2 ^ 63
      → IsOrdered c
      → FieldSound l name w
      → FieldSound l name (meet_at fl (spray_and_wait (pos l)) tick c w)
  unfolding meet_at
  meet_at-FieldSound (i, j) w hl lt h = elim (Option-cases (at i w.nodes)) [
    | inl gone ↦ rw (gone, meet_at) h
    | inr (a, at_i) ↦ elim (Option-cases (at j w.nodes)) [
      | inl gone ↦ rw (at_i, meet_at) (rw (gone, meet_at) h)
      | inr (b, at_j) ↦
          let p : Contact F = record { a = a; b = b; states = w.states; delivered = w.delivered } in
          let q = meet fl (spray_and_wait (pos l)) tick p in
          let (sound, counts, no_name) = meet-Sound fl l tick p hl (record {
            a_mirrored = All-at IsMirrored i a w.nodes h.mirrored at_i;
            b_mirrored = All-at IsMirrored j b w.nodes h.mirrored at_j;
            states_counted = h.counted;
          }) in
          let still : at j (put_at i q.a w.nodes) ≡ some b =
            at-put_at i j q.a w.nodes (λ e. apart e lt) ∙ at_j in
          rw (at_i, meet_at)
            (rw (at_j, meet_at)
              (record {
                mirrored =
                    All-put_at IsMirrored j q.b (put_at i q.a w.nodes)
                      (All-put_at IsMirrored i q.a w.nodes h.mirrored sound.a_mirrored)
                      sound.b_mirrored;
                counted = sound.states_counted;
                within = λ k. omega (
                  arith,
                  h.within k,
                  counts k,
                  copies-put_at k i a q.a w.nodes at_i,
                  copies-put_at k j b q.b (put_at i q.a w.nodes) still,
                );
                unused = λ m le. no_name (name m) (h.unused m le);
              }))
    ]
  ]
    where
      apart : i ≡ j → i < j → ⊥
      apart e less = omega arith

  meet_all-FieldSound :
      (cs : List (ℕ × ℕ)) (w : Field F)
      → l < 2 ^ 63
      → All IsOrdered cs
      → FieldSound l name w
      → FieldSound l name (meet_all fl (spray_and_wait (pos l)) tick cs w)
  unfolding meet_all
  meet_all-FieldSound [] w hl lt h = h
  meet_all-FieldSound (c ∷ cs) w hl lt h =
      meet_all-FieldSound cs (meet_at fl (spray_and_wait (pos l)) tick c w) hl lt.1
        (meet_at-FieldSound c w hl lt.0 h)

-- The configuration sprays with the budget, and names no two messages alike.
pub record IsSprayRun (l : ℕ) (cfg : SimConfig) (sch : Schedule) : Type 0 where
  pub sprays : cfg.forwarder ≡ spray_and_wait (pos l)
  pub small : l < 2 ^ 63
  pub distinct : (i j : ℕ) → sch.msg_name i ≡ sch.msg_name j → i ≡ j

module _ {F : Type 0} (fl : Floats F) (l : ℕ) (cfg : SimConfig) (sch : Schedule) where
  tick_once-FieldSound :
      (tick : ℕ) (w : Field F)
      → IsSprayRun l cfg sch
      → FieldSound l sch.msg_name w
      → FieldSound l sch.msg_name (tick_once fl cfg sch tick w)
  unfolding tick_once is_injection
  tick_once-FieldSound tick w ok h =
      let cs = contacts (sch.near tick) cfg.nodes 0 in
      let begun = if is_injection cfg tick w.injected then inject tick cfg.ttl sch w else w in
      let begun_sound : FieldSound l sch.msg_name begun =
        elim (Bool-cases (is_injection cfg tick w.injected)) [
          | inl yes_now ↦
              rw (yes_now) (inject-FieldSound l sch.msg_name tick cfg.ttl sch w ok.distinct h)
          | inr not_now ↦ rw (not_now) h
        ] in
      let met = meet_all fl cfg.forwarder (pos tick) cs begun in
      let met_sound : FieldSound l sch.msg_name met = rw (ok.sprays) (
        meet_all-FieldSound fl l sch.msg_name (pos tick) cs begun ok.small
          (contacts-IsOrdered (sch.near tick) cfg.nodes 0) begun_sound) in
      let aged = age_lonely fl cs 0 met.nodes in
      record {
        mirrored =
            sweep-All-Mirrored met.states (pos tick) aged
              (age_lonely-Mirrored fl cs 0 met.nodes met_sound.mirrored);
        counted = met_sound.counted;
        within = λ k. omega (
          arith,
          met_sound.within k,
          copies-age_lonely fl cs k 0 met.nodes,
          copies-sweep met.states (pos tick) k aged,
        );
        unused = met_sound.unused;
      }

  pub run_ticks-FieldSound :
      (rounds tick : ℕ) (w : Field F)
      → IsSprayRun l cfg sch
      → FieldSound l sch.msg_name w
      → FieldSound l sch.msg_name (run_ticks fl cfg sch rounds tick w)
  unfolding run_ticks
  run_ticks-FieldSound zero tick w ok h = h
  run_ticks-FieldSound (suc rounds) tick w ok h =
      run_ticks-FieldSound rounds (suc tick) (tick_once fl cfg sch tick w) ok
        (tick_once-FieldSound tick w ok h)
