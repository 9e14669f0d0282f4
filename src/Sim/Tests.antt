-- ===== src/Sim/Tests.antt =====
-- The theorem of the simulator at a concrete input, and runs.
use ripple.Prelude.{
  ap, ℕ, zero, suc, ◌≤◌, ◌<◌, ◌≢◌, ◌⊎◌, Text, pos, ◌≡◌, refl, arith, some, [], ◌∷◌, length, ◌==◌,
  ◌+◌, ◌-◌, ◌*◌, ◌/◌, ◌%◌, ltb, leb,
}
use ripple.Routing.{Forwarder, spray_and_wait, epidemic}
use ripple.Sim.{SimNode}
use ripple.Sim.Mirror.{count}
use ripple.Sim.Copies.{made, copy_cap}
use ripple.Sim.Nodes.{copies}
use ripple.Sim.Run.{SimConfig, Schedule, at, start_field, run_ticks, is_injection}
use ripple.Sim.Whole.{run_ticks-copies}
use ripple.Sim.Motion.{Geometry, Area, pick_pair, start_motion, move_on, motion_in}
use ripple.Sim.Pairs.{IntnLaw, motion_in-pair}
use ripple.Samples.{hundredths}

-- Names in unary.
abbrev strokes : ℕ → Text
strokes zero = []
strokes (suc n) = 1 ∷ strokes n

length-strokes : (n : ℕ) → length (strokes n) ≡ n
length-strokes zero = refl
length-strokes (suc n) = omega (arith, length-strokes n)

strokes-distinct : (i j : ℕ) → strokes i ≡ strokes j → i ≡ j
strokes-distinct i j e = ground (arith, ap length e, length-strokes i, length-strokes j)

-- Four nodes in a row, of which neighbours meet; the messages go from one end to the other.
abbrev row : Schedule
row = record {
  near = λ tick i j. j == suc i;
  source = λ tick. 0;
  target = λ tick. 3;
  node_name = strokes;
  msg_name = strokes;
}

abbrev short_run : Forwarder → SimConfig
short_run f = record {
  nodes = 4;
  messages = 1;
  injection_from = 1;
  injection_to = 2;
  ttl = pos 9;
  duration = 5;
  forwarder = f;
}

run_ticks-copies_example :
    (copies
        (strokes 0)
        (run_ticks hundredths
          (short_run (spray_and_wait (pos 2)))
          row
          4
          0
          (start_field hundredths (short_run (spray_and_wait (pos 2))) row)).nodes
      ≤ made
          (strokes 0)
          (run_ticks hundredths
            (short_run (spray_and_wait (pos 2)))
            row
            4
            0
            (start_field hundredths (short_run (spray_and_wait (pos 2))) row)).states)
    × (made
          (strokes 0)
          (run_ticks hundredths
            (short_run (spray_and_wait (pos 2)))
            row
            4
            0
            (start_field hundredths (short_run (spray_and_wait (pos 2))) row)).states
        ≤ copy_cap 2)
    × ((i : ℕ) (n : SimNode ℕ)
        → at i
            (run_ticks hundredths
              (short_run (spray_and_wait (pos 2)))
              row
              4
              0
              (start_field hundredths (short_run (spray_and_wait (pos 2))) row)).nodes
          ≡ some n
        → count (strokes 0) n.buf ≤ 1)
run_ticks-copies_example =
    run_ticks-copies hundredths 2 (short_run (spray_and_wait (pos 2))) row 4 (strokes 0) refl
      (omega arith) strokes-distinct

-- Whole numbers in place of floats, and a generator that counts.
abbrev whole_steps : Geometry ℕ ℕ
whole_steps = record {
  zero = 0;
  tiny = 1;
  add = λ a b. a + b;
  sub = λ a b. a - b;
  mul = λ a b. a * b;
  div = λ a b. a / b;
  hypot = λ a b. a + b;
  lt = ltb;
  le = leb;
  rand_float = λ r. (r % 5, suc r);
  rand_int = λ n r. (r % n, suc r);
}

pick_pair_test : pick_pair whole_steps 4 6 ≡ ((2, 1), 8)
unfolding pick_pair
pick_pair_test = refl

pick_pair_passes_over_test : pick_pair whole_steps 4 4 ≡ ((0, 3), 6)
unfolding pick_pair
pick_pair_passes_over_test = refl

abbrev small_area : Area ℕ
small_area = record { area_size = 9; radio_range = 2; min_speed = 1; max_speed = 3 }

remainder_law : IntnLaw whole_steps
remainder_law n r h = omega arith

motion_in-pair_example :
    (length (motion_in whole_steps small_area (short_run epidemic) 6 2).walkers ≡ 4)
    × ((motion_in whole_steps small_area (short_run epidemic) 6 2).injected ≤ 1)
    × (((motion_in whole_steps small_area (short_run epidemic) 6 2).injected ≡ 0)
        ⊎ (((motion_in whole_steps small_area (short_run epidemic) 6 2).pair.0 < 4)
            × ((motion_in whole_steps small_area (short_run epidemic) 6 2).pair.1 < 4)
            × ((motion_in whole_steps small_area (short_run epidemic) 6 2).pair.0
                ≢ (motion_in whole_steps small_area (short_run epidemic) 6 2).pair.1)))
motion_in-pair_example =
    motion_in-pair whole_steps small_area (short_run epidemic) remainder_law (omega arith) 6 2

injected_by_then : (motion_in whole_steps small_area (short_run epidemic) 6 2).injected ≡ 1
unfolding motion_in move_on start_motion is_injection
injected_by_then = refl
