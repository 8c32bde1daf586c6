-- ===== src/Unsolicited.antt =====
-- Sessions that peers open: internal/bfd/unsolicited.go. Addresses and prefixes are those of
-- Go's net/netip; an interface's name is a number. The counter is an atomic.Int32 and is held as its
-- bit pattern, a number below 2^32.
pub mod Counter
pub mod Policy
pub mod Reserve
use gobfd.Common.{
  ℕ, zero, suc, ◌+◌, ◌-◌, ◌/◌, ◌%◌, ◌^◌, List, [], ◌∷◌, Option, none, some, Bool, true, false, not,
  ◌||◌, ◌&&◌, ltb, leb, ◌==◌, if◌then◌else◌, length, Result, ok, err, ◌>>=◌, ◌>>◌, guard,
}
use gobfd.Duration.{ℤ, pos, pos_part, not_positive}
use gobfd.Netip.{Addr}

pub data UnsolicitedError : Type 0 where
  unsolicited_disabled unsolicited_interface_not_enabled unsolicited_prefix_denied :
      UnsolicitedError
  unsolicited_max_sessions : UnsolicitedError

-- `netip.Prefix`; `bits` is none where the prefix is not valid.
pub record Prefix : Type 0 where
  pub base : Addr
  pub bits : Option ℕ

-- `Prefix.Contains`: the same family, no zone, and the same leading bits.
unfoldable pub prefix_contains : Prefix → Addr → Bool
prefix_contains p addr = elim p.bits [
  | none ↦ false
  | some n ↦
      addr.zone == 0
      && not (addr.bit_len == 0)
      && p.base.bit_len == addr.bit_len
      && addr.value / 2 ^ (addr.bit_len - n) == p.base.value / 2 ^ (addr.bit_len - n)
]

pub record UnsolicitedInterfaceConfig : Type 0 where
  pub if_enabled : Bool
  pub allowed_prefixes : List Prefix

pub record UnsolicitedSessionDefaults : Type 0 where
  pub desired_min_tx_interval : ℤ
  pub required_min_rx_interval : ℤ
  pub detect_multiplier : ℕ

pub record UnsolicitedPolicy : Type 0 where
  pub enabled : Bool
  pub interfaces : List (ℕ × UnsolicitedInterfaceConfig)
  pub max_sessions : ℤ
  pub session_defaults : UnsolicitedSessionDefaults
  pub cleanup_timeout : ℤ

-- The lookup in the map of interfaces.
abbrev pub find_interface :
    List (ℕ × UnsolicitedInterfaceConfig) → ℕ → Option UnsolicitedInterfaceConfig
find_interface [] name = none
find_interface ((k, cfg) ∷ rest) name = if k == name then some cfg else find_interface rest name

unfoldable pub matches_any_prefix : Addr → List Prefix → Bool
matches_any_prefix addr [] = false
matches_any_prefix addr (p ∷ rest) = prefix_contains p addr || matches_any_prefix addr rest

abbrev pub check_interface :
    Addr → Option UnsolicitedInterfaceConfig → Result UnsolicitedError (Unit {0})
check_interface src none = err unsolicited_interface_not_enabled
check_interface src (some cfg) = do
  guard cfg.if_enabled unsolicited_interface_not_enabled
  guard (not (ltb 0 (length cfg.allowed_prefixes)) || matches_any_prefix src cfg.allowed_prefixes)
      unsolicited_prefix_denied

unfoldable pub check_interface_policy :
    Option UnsolicitedPolicy → Addr → ℕ → Result UnsolicitedError (Unit {0})
check_interface_policy none src name = err unsolicited_disabled
check_interface_policy (some policy) src name = do
  guard policy.enabled unsolicited_disabled
  check_interface src (find_interface policy.interfaces name)

-- What one turn of a compare-and-swap loop does to the counter: it ends the call, or the counter
-- was not the one that was loaded and the loop turns again.
pub data Turn : Type 0 where
  done : Result UnsolicitedError (Unit {0}) → Turn
  again : Turn

-- `int(current) >= limit` for a limit above zero: a pattern from 2^31 on is a negative number.
abbrev pub limit_reached : ℕ → ℤ → Bool
limit_reached current max = ltb current (2 ^ 31) && leb (pos_part max) current

-- `reserve` behind the policy check, from the value `current` that its Load gave.
unfoldable pub reserve_turn : ℤ → ℕ → ℕ → ℕ × Turn
reserve_turn max current count =
    if not_positive max
    then ((count + 1) % 2 ^ 32, done (ok tt))
    else if limit_reached current max
    then (count, done (err unsolicited_max_sessions))
    else if count == current
    then ((current + 1) % 2 ^ 32, done (ok tt))
    else (count, again)

-- `release`, likewise; it has no error. The pattern of `current - 1` is one lower, since `current` is
-- not zero.
unfoldable pub release_turn : ℕ → ℕ → ℕ × Turn
release_turn current count =
    if current == 0
    then (count, done (ok tt))
    else if count == current
    then (current - 1, done (ok tt))
    else (count, again)

-- A policy that passed the check is there.
abbrev pub limit_of : Option UnsolicitedPolicy → ℤ
limit_of none = pos 0
limit_of (some policy) = policy.max_sessions

-- What a call returns that ends with this turn.
abbrev pub turn_result : ℕ × Turn → ℕ × Result UnsolicitedError (Unit {0})
turn_result (count, done r) = (count, r)
turn_result (count, again) = (count, err unsolicited_max_sessions)

-- `reserve` from end to end, where no other goroutine changes the counter between its Load and its
-- swap; the turn then ends the call.
unfoldable pub reserve :
    Option UnsolicitedPolicy → Addr → ℕ → ℕ → ℕ × Result UnsolicitedError (Unit {0})
reserve policy src name count = elim (check_interface_policy policy src name) [
  | err failure ↦ (count, err failure)
  | ok passed ↦ turn_result (reserve_turn (limit_of policy) count count)
]

-- `release` likewise.
unfoldable pub release : ℕ → ℕ
release count = (release_turn count count).0
