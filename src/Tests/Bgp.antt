-- ===== src/Tests/Bgp.antt =====
-- The dampening and the handler of internal/gobgp on concrete values. A penalty is counted in
-- thousandths.
use gobfd.Common.{
  ℕ, ◌+◌, ◌*◌, ◌/◌, ◌^◌, ◌≡◌, ◌⊎◌, refl, List, [], ◌∷◌, true, false, leb, ltb, ◌==◌, inl,
}
use gobfd.Assoc.{nat_key, lookup}
use gobfd.Netip.{Addr}
use gobfd.Duration.{pos, second}
use gobfd.Packet.{down, up}
use gobfd.Session.{StateChange, single_hop}
use gobfd.Dampening.{
  Floats, DampeningConfig, Dampener, Call, flap, lasted, get_or_create_peer, should_suppress,
  should_suppress_up, up_of, decay_penalty, after_up,
}
use gobfd.Dampening.Explained.{replay, Flapped, Reaches, suppressed_by_flap}
use gobfd.BgpHandler.{
  Handler, disable_peer, disables, Event, run, handle_state_change, is_transition_to_down,
  is_transition_to_up,
}
use gobfd.BgpHandler.Stranded.{Disabled, NoUps, actions_of, suppressed_up_strands, run_undamped}
use gobfd.Tests.{peer}

abbrev thousandths : Floats
thousandths = record {
  zero_penalty = 0;
  plus_one = λ p. p + 1000;
  is_zero = λ p. p == 0;
  at_least = λ a b. leb b a;
  below = ltb;
  is_tiny = λ p. p == 0;
  decayed = λ p elapsed half_life. p / 2 ^ (elapsed / half_life);
}

abbrev damped : DampeningConfig
damped = record {
  enabled = true;
  suppress_threshold = 3000;
  reuse_threshold = 2000;
  max_suppress_time = pos (60 * second);
  half_life = pos (15 * second);
}

abbrev three_flaps : List (Call × ℕ)
three_flaps = (flap 7, 3 * second) ∷ (flap 7, 2 * second) ∷ (flap 7, second) ∷ []

suppressed_by_flap_example :
    ((should_suppress thousandths damped 7 (4 * second) (replay thousandths damped three_flaps)).1
        ≡ true
      → (damped.enabled ≡ true)
        × (Reaches thousandths damped (4 * second) (
              get_or_create_peer thousandths damped 7
                (4 * second)
                (replay thousandths damped three_flaps))
            ⊎ ((s : ℕ) × Flapped thousandths damped 7 s three_flaps
                × (lasted (4 * second) s damped.max_suppress_time ≡ false))))
    × ((should_suppress_up thousandths damped 7
            (4 * second)
            (replay thousandths damped three_flaps)).1
          ≡ true
        → (damped.enabled ≡ true)
          × ((s : ℕ) × Flapped thousandths damped 7 s three_flaps
              × (lasted (4 * second) s damped.max_suppress_time ≡ false)))
suppressed_by_flap_example = suppressed_by_flap thousandths damped three_flaps 7 (4 * second)

abbrev held : Dampener
held = record {
  peers =
      (
        7,
        record {
          penalty = 3000;
          last_update = 3 * second;
          suppressed = true;
          suppressed_since = 3 * second;
        },
      )
      ∷ [];
}

abbrev waiting : Handler
waiting = record {
  strategy = disable_peer;
  dampener = held;
  timeout = pos second;
  sent = disables 7 1 ∷ [];
}

abbrev back_up : StateChange
back_up = record {
  change_discr = 1;
  change_peer = peer;
  change_old = down;
  change_new = up;
  change_diag = 0;
  change_time = 0;
  change_type = single_hop;
  change_interface = 0;
}

-- The text of every address.
abbrev seven : Addr → ℕ
seven addr = 7

up_held : (should_suppress_up thousandths damped 7 (4 * second) held).1 ≡ true
unfolding should_suppress_up up_of lookup decay_penalty after_up
up_held = refl

not_down : is_transition_to_down back_up ≡ false
unfolding is_transition_to_down
not_down = refl

goes_up : is_transition_to_up back_up ≡ true
unfolding is_transition_to_up
goes_up = refl

-- It falls later on.
abbrev later_event : Event
later_event = record {
  change = record back_up { change_old = up; change_new = down; change_diag = 1 };
  at = 90 * second;
  client_ok = true;
}

no_ups : NoUps thousandths damped seven 7 (later_event ∷ [])
unfolding is_transition_to_up
no_ups = (inl refl, tt)

suppressed_up_strands_example :
    Disabled 7
      (run thousandths damped seven
        (later_event ∷ [])
        (handle_state_change thousandths damped seven true (4 * second) back_up waiting)).sent
suppressed_up_strands_example =
    suppressed_up_strands thousandths damped seven back_up (4 * second) true (later_event ∷ [])
      waiting not_down goes_up up_held (inl refl) no_ups

abbrev undamped : DampeningConfig
undamped = record damped { enabled = false }

abbrev one_event : List Event
one_event = record { change = back_up; at = 4 * second; client_ok = true } ∷ []

run_undamped_example :
    (run thousandths undamped seven one_event waiting).sent
    ≡ actions_of thousandths undamped seven one_event waiting.sent
run_undamped_example = run_undamped thousandths undamped seven one_event waiting refl refl
