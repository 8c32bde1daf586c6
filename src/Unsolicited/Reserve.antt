-- ===== src/Unsolicited/Reserve.antt =====
-- The calls of reserve and release (internal/bfd/unsolicited.go) that no other goroutine disturbs.
use gobfd.Common.{
  ℕ, ◌+◌, ◌-◌, ◌^◌, ◌<◌, ◌≡◌, ◌⊎◌, refl, ap, some, true, arith, inl, inr, ok, err, Result-cases,
}
use gobfd.Duration.{ℤ, pos_part, not_positive}
use gobfd.Netip.{Addr}
use gobfd.Unsolicited.{
  UnsolicitedPolicy, UnsolicitedError, done, check_interface_policy, reserve_turn, release_turn,
  reserve, release, turn_result, unsolicited_max_sessions,
}

-- There is room: no limit is set, or the counter is below it.
abbrev pub HasRoom : UnsolicitedPolicy → ℕ → Type 0
HasRoom policy count =
    (not_positive policy.max_sessions ≡ true) ⊎ (count < pos_part policy.max_sessions)

turn_alone :
    (max : ℤ) (count : ℕ)
    → count < 2 ^ 31
    → ((reserve_turn max count count ≡ (count + 1, done (ok tt)))
        × ((not_positive max ≡ true) ⊎ (count < pos_part max)))
      ⊎ (reserve_turn max count count ≡ (count, done (err unsolicited_max_sessions)))
unfolding reserve_turn
turn_alone max count h = ground arith

-- From a counter that is not negative the call fails and leaves the counter as it was, or it
-- succeeds and adds one: the policy lets the peer in, and there is room.
pub reserve_cases :
    (policy : UnsolicitedPolicy) (src : Addr) (name count : ℕ)
    → count < 2 ^ 31
    → ((e : UnsolicitedError) × (reserve (some policy) src name count ≡ (count, err e)))
      ⊎ ((reserve (some policy) src name count ≡ (count + 1, ok tt))
          × (check_interface_policy (some policy) src name ≡ ok tt)
          × HasRoom policy count)
unfolding reserve
reserve_cases policy src name count h =
    elim (Result-cases (check_interface_policy (some policy) src name)) [
      | inr (e, refused) ↦ inl (e, rw (refused, reserve) refl)
      | inl (u, passed) ↦ elim (turn_alone policy.max_sessions count h) [
        | inl (taken, room) ↦ inr (rw (passed, reserve) (ap turn_result taken), passed, room)
        | inr full ↦ inl (unsolicited_max_sessions, rw (passed, reserve) (ap turn_result full))
      ]
    ]

-- A counter that was just raised is back where it was, and one that stands at zero stays there.
pub release_lem : (n : ℕ) → release n ≡ n - 1
unfolding release release_turn
release_lem n = ground arith
