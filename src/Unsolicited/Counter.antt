-- ===== src/Unsolicited/Counter.antt =====
-- The counter of unsolicited sessions (internal/bfd/unsolicited.go) under every interleaving of
-- the calls of reserve and release.
use gobfd.Common.{
  ℕ, ◌+◌, ◌-◌, ◌^◌, ◌<◌, ◌≤◌, ◌≡◌, ◌⊎◌, arith, List, [], ◌∷◌, false, inl, inr, ◌==◌, if◌then◌else◌,
  ok,
}
use gobfd.Duration.{ℤ, pos_part, not_positive}
use gobfd.Unsolicited.{Turn, done, again, reserve_turn, release_turn}

-- A goroutine's access to the counter: a Load, or the turn of a loop that follows one.
pub data Access : Type 0 where
  load reserve_swap release_swap : ℕ → Access

-- The counter, the value that each goroutine loaded last, and how many calls of reserve succeeded
-- without a later call of release.
pub record Machine : Type 0 where
  pub count : ℕ
  pub loaded : ℕ → ℕ
  pub held : ℕ

-- The loaded value of one goroutine changes.
abbrev pub store_loaded : (ℕ → ℕ) → ℕ → ℕ → ℕ → ℕ
store_loaded f i v j = if i == j then v else f j

abbrev pub reserved_by : Turn → ℕ → ℕ
reserved_by (done (ok u)) held = held + 1
reserved_by _ held = held

-- A release that finds the counter at zero has no session to give back.
abbrev pub released_by : ℕ → Turn → ℕ → ℕ
released_by current (done r) held = if current == 0 then held else held - 1
released_by current again held = held

unfoldable pub access : ℤ → Access → Machine → Machine
access max (load i) m = record m { loaded = store_loaded m.loaded i m.count }
access max (reserve_swap i) m =
    let (count, turn) = reserve_turn max (m.loaded i) m.count in
    record m { count = count; held = reserved_by turn m.held }
access max (release_swap i) m =
    let (count, turn) = release_turn (m.loaded i) m.count in
    record m { count = count; held = released_by (m.loaded i) turn m.held }

unfoldable pub accesses : ℤ → List Access → Machine → Machine
accesses max [] m = m
accesses max (a ∷ rest) m = accesses max rest (access max a m)

-- A limit that an int32 can hold is set and was kept so far.
abbrev pub IsLimited : ℤ → Machine → Type 0
IsLimited max m = (not_positive max ≡ false) × (pos_part max < 2 ^ 31) × (m.count ≤ pos_part max)

-- Before each access fewer than 2^31 sessions are held.
abbrev pub Fits : ℤ → List Access → Machine → Type 0
Fits max [] m = Unit
Fits max (a ∷ rest) m = (m.held < 2 ^ 31) × Fits max rest (access max a m)

access_counts :
    (max : ℤ) (a : Access) (m : Machine)
    → m.count ≡ m.held
    → m.held < 2 ^ 31
    → ((access max a m).count ≡ (access max a m).held)
      × (IsLimited max m → IsLimited max (access max a m))
unfolding access reserve_turn release_turn
access_counts max (load i) m e h = ground arith
access_counts max (reserve_swap i) m e h = ground arith
access_counts max (release_swap i) m e h = ground arith

-- The int32 counter stays exact under every interleaving of the loads and swaps of `reserve` and
-- `release`: from a state in which it is the number of sessions held, no increment and no decrement
-- is lost, so it is the number of sessions reserved and not yet released, and a limit is never
-- exceeded. It is asked that a limit below 2^31 is set and was kept so far, or that before each
-- access fewer than 2^31 sessions are held; without either the counter could wrap.
pub counter_exact :
    (max : ℤ) (run : List Access) (m : Machine)
    → m.count ≡ m.held
    → IsLimited max m ⊎ Fits max run m
    → ((accesses max run m).count ≡ (accesses max run m).held)
      × (IsLimited max m → IsLimited max (accesses max run m))
unfolding accesses
counter_exact max [] m e h = (e, λ l. l)
counter_exact max (a ∷ rest) m e (inl l) =
    let (s, b) = access_counts max a m e (omega (arith, l.2)) in
    let (s', b') = counter_exact max rest (access max a m) s (inl (b l)) in (s', λ l. b' (b l))
counter_exact max (a ∷ rest) m e (inr f) =
    let (s, b) = access_counts max a m e f.0 in
    let (s', b') = counter_exact max rest (access max a m) s (inr f.1) in (s', λ l. b' (b l))
