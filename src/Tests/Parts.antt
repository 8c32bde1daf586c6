-- ===== src/Tests/Parts.antt =====
-- Durations, jitter, discriminators, common intervals and unsolicited sessions of internal/bfd on
-- concrete values.
use gobfd.Common.{
  inl, ℕ, ◌+◌, ◌*◌, ◌≤◌, ◌≡◌, ◌≢◌, refl, arith, List, [], ◌∷◌, if◌then◌else◌, Option, some, false,
  ◌||◌, ◌==◌, Result, ok, err,
}
use gobfd.Duration.{pos}
use gobfd.Jitter.{apply_jitter, apply_jitter_bounds}
use gobfd.Discriminator.{
  AllocError, DiscriminatorAllocator, allocate, is_allocated, attempts, attempt, usable, contains,
  discriminator_exhausted, max_alloc_attempts,
}
use gobfd.Discriminator.Fresh.{AllTaken, allocate_fresh, allocate_finds}
use gobfd.Packet.{up}
use gobfd.MicroBfd.{
  MicroBfdConfig, MicroBfdGroup, new_members, new_micro_bfd_group, validate_micro_bfd_config,
  no_duplicates,
}
use gobfd.MicroBfd.Aggregate.{update, remove, calls, calls-IsConsistent}
use gobfd.MicroBfd.Members.{IsConsistent}
use gobfd.Unsolicited.Counter.{
  Access, load, reserve_swap, release_swap, Machine, accesses, IsLimited, counter_exact,
}

apply_jitter_bounds_example :
    ((apply_jitter 300_000_000 1 5).1 ≤ 300_000_000)
    × (3 * 300_000_000 ≤ 4 * (apply_jitter 300_000_000 1 5).1)
    × (◌≡◌ {A = ℕ} 1 1 → 10 * (apply_jitter 300_000_000 1 5).1 ≤ 9 * 300_000_000 + 9)
apply_jitter_bounds_example = apply_jitter_bounds 300_000_000 1 5 (omega arith)

-- Zero, a number that is taken, and then sixes.
abbrev draws : ℕ → Option ℕ
draws n = some (if n == 0 then 0 else if n == 1 then 5 else 6)

abbrev five_taken : DiscriminatorAllocator
five_taken = record { allocated = 5 ∷ [] }

six_drawn : allocate draws five_taken ≡ (record { allocated = 6 ∷ 5 ∷ [] }, ok 6)
unfolding allocate attempts attempt usable contains
six_drawn = refl

allocate_fresh_example :
    ((n : ℕ)
      → ◌≡◌ {A = Result AllocError ℕ} (ok 6) (ok n)
      → (n ≢ 0)
        × (is_allocated n five_taken ≡ false)
        × ((m : ℕ)
            → is_allocated m (record { allocated = 6 ∷ 5 ∷ [] })
              ≡ (n == m || is_allocated m five_taken)))
    × ((e : AllocError)
        → ◌≡◌ {A = Result AllocError ℕ} (ok 6) (err e)
        → (record { allocated = 6 ∷ 5 ∷ [] } ≡ five_taken)
          × (e ≡ discriminator_exhausted → AllTaken five_taken draws 0 max_alloc_attempts))
allocate_fresh_example =
    allocate_fresh draws five_taken (record { allocated = 6 ∷ 5 ∷ [] }) (ok 6) six_drawn

two_taken : AllTaken five_taken draws 0 2
unfolding usable contains
two_taken = ((0, refl, refl), ((5, refl, refl), tt))

six_free : is_allocated 6 five_taken ≡ false
unfolding is_allocated contains
six_free = refl

allocate_finds_example : (allocate draws five_taken).1 ≡ ok 6
allocate_finds_example =
    allocate_finds 2 draws 6 five_taken (omega arith) two_taken refl (omega arith) six_free

-- Two goroutines load the same value before either swaps.
abbrev race : List Access
race = load 0 ∷ load 1 ∷ reserve_swap 0 ∷ reserve_swap 1 ∷ load 1 ∷ release_swap 1 ∷ []

abbrev none_held : Machine
none_held = record { count = 0; loaded = λ i. 0; held = 0 }

counter_exact_example :
    ((accesses (pos 1) race none_held).count ≡ (accesses (pos 1) race none_held).held)
    × (IsLimited (pos 1) none_held → IsLimited (pos 1) (accesses (pos 1) race none_held))
counter_exact_example =
    counter_exact (pos 1) race none_held refl (inl (refl, omega arith, omega arith))

abbrev two_links : MicroBfdConfig
two_links = record {
  cfg_lag_interface = 1;
  cfg_member_links = 10 ∷ 11 ∷ [];
  cfg_min_active_links = 2;
}

abbrev two_link_group : MicroBfdGroup
two_link_group = record {
  lag_interface = 1;
  members = new_members (10 ∷ 11 ∷ []);
  min_active = 2;
  aggregate_up = false;
  up_count = 0;
}

group_made : new_micro_bfd_group two_links ≡ ok two_link_group
unfolding new_micro_bfd_group validate_micro_bfd_config no_duplicates
group_made = refl

calls-IsConsistent_example :
    IsConsistent (calls (update 10 up 7 ∷ update 11 up 8 ∷ remove 10 ∷ []) two_link_group)
calls-IsConsistent_example =
    calls-IsConsistent two_links two_link_group (update 10 up 7 ∷ update 11 up 8 ∷ remove 10 ∷ [])
      group_made

two_link_group-IsConsistent : IsConsistent two_link_group
unfolding calls
two_link_group-IsConsistent = calls-IsConsistent two_links two_link_group [] group_made
