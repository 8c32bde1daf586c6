-- ===== src/Dampening.antt =====
-- Flap dampening of a BGP peer: internal/gobgp/dampening.go. The penalties are float64 values, named
-- by their bits; what the code does with them is given as a record. A time is a number of
-- nanoseconds, an address its number.
pub mod Explained
use gobfd.Common.{
  ℕ, suc, ◌+◌, ◌-◌, ◌≡◌, List, [], ◌∷◌, Option, none, some, Bool, true, false, not, ◌&&◌, ◌||◌, leb,
  ◌==◌, if◌then◌else◌,
}
use gobfd.Assoc.{nat_key, lookup, insert, delete}
use gobfd.Duration.{ℤ, pos, negsuc, pos_part, not_positive}

-- 0, `p + 1.0`, `p == 0`, `a >= b`, `a < b`, `p < 0.001`, and
-- `p * math.Pow(0.5, float64(elapsed) / float64(half_life))`.
pub record Floats : Type 0 where
  pub zero_penalty : ℕ
  pub plus_one : ℕ → ℕ
  pub is_zero : ℕ → Bool
  pub at_least : ℕ → ℕ → Bool
  pub below : ℕ → ℕ → Bool
  pub is_tiny : ℕ → Bool
  pub decayed : ℕ → ℕ → ℕ → ℕ

pub record DampeningConfig : Type 0 where
  pub enabled : Bool
  pub suppress_threshold : ℕ
  pub reuse_threshold : ℕ
  pub max_suppress_time : ℤ
  pub half_life : ℤ

pub record PeerPenalty : Type 0 where
  pub penalty : ℕ
  pub last_update : ℕ
  pub suppressed : Bool
  pub suppressed_since : ℕ

-- The configuration does not change and is an argument of each method.
pub record Dampener : Type 0 where
  pub peers : List (ℕ × PeerPenalty)

unfoldable pub new_dampener : Dampener
new_dampener = record { peers = [] }

-- `now.Sub(since) >= limit`, for times less than 292 years apart.
abbrev pub lasted : ℕ → ℕ → ℤ → Bool
lasted now since (pos limit) = leb (since + limit) now
lasted now since (negsuc n) = leb since (now + suc n)

abbrev pub peer_or_new : ℕ → ℕ → Option PeerPenalty → PeerPenalty
peer_or_new none_yet now (some pp) = pp
peer_or_new none_yet now none = record {
  penalty = none_yet;
  last_update = now;
  suppressed = false;
  suppressed_since = 0;
}

-- A call of a method, for an address.
pub data Call : Type 0 where
  flap up resets : ℕ → Call

module _ (fl : Floats) (cfg : DampeningConfig) where
  unfoldable pub get_or_create_peer : ℕ → ℕ → Dampener → PeerPenalty
  get_or_create_peer addr now d = peer_or_new fl.zero_penalty now (lookup addr d.peers)

  unfoldable pub decay_penalty : ℕ → PeerPenalty → PeerPenalty
  decay_penalty now pp =
      let p = fl.decayed pp.penalty (now - pp.last_update) (pos_part cfg.half_life) in
      if not_positive cfg.half_life || fl.is_zero pp.penalty || leb now pp.last_update
      then pp
      else record pp { penalty = if fl.is_tiny p then fl.zero_penalty else p; last_update = now }

  -- The zero time is 0.
  unfoldable pub unsuppress : PeerPenalty → PeerPenalty
  unsuppress pp = record pp { suppressed = false; suppressed_since = 0; penalty = fl.zero_penalty }

  -- Both tests of ShouldSuppress, behind the new penalty.
  unfoldable pub after_flap : ℕ → PeerPenalty → PeerPenalty × Bool
  unfolding unsuppress
  after_flap now pp =
      if pp.suppressed && lasted now pp.suppressed_since cfg.max_suppress_time
      then (unsuppress pp, false)
      else if not pp.suppressed && fl.at_least pp.penalty cfg.suppress_threshold
      then (record pp { suppressed = true; suppressed_since = now }, true)
      else (pp, pp.suppressed)

  abbrev pub flapped : ℕ → PeerPenalty → PeerPenalty
  flapped now pp = record pp { penalty = fl.plus_one pp.penalty; last_update = now }

  unfoldable pub should_suppress : ℕ → ℕ → Dampener → Dampener × Bool
  unfolding get_or_create_peer decay_penalty after_flap
  should_suppress addr now d =
      let r = after_flap now (flapped now (decay_penalty now (get_or_create_peer addr now d))) in
      if not cfg.enabled then (d, false) else (record { peers = insert addr r.0 d.peers }, r.1)

  -- Both tests of ShouldSuppressUp.
  unfoldable pub after_up : ℕ → PeerPenalty → PeerPenalty × Bool
  unfolding unsuppress
  after_up now pp =
      if pp.suppressed && lasted now pp.suppressed_since cfg.max_suppress_time
      then (unsuppress pp, false)
      else if pp.suppressed && fl.below pp.penalty cfg.reuse_threshold
      then (unsuppress pp, false)
      else (pp, pp.suppressed)

  unfoldable pub up_of : ℕ → ℕ → Dampener → Option PeerPenalty → Dampener × Bool
  unfolding decay_penalty after_up
  up_of addr now d none = (d, false)
  up_of addr now d (some pp) =
      let r = after_up now (decay_penalty now pp) in
      (record { peers = insert addr r.0 d.peers }, r.1)

  unfoldable pub should_suppress_up : ℕ → ℕ → Dampener → Dampener × Bool
  unfolding up_of
  should_suppress_up addr now d =
      if not cfg.enabled then (d, false) else up_of addr now d (lookup addr d.peers)

  unfoldable pub reset : ℕ → Dampener → Dampener
  reset addr d = record { peers = delete addr d.peers }

  -- A call with what it answers, at a time.
  unfoldable pub call : Call → ℕ → Dampener → Dampener × Bool
  unfolding should_suppress should_suppress_up reset
  call (flap addr) now d = should_suppress addr now d
  call (up addr) now d = should_suppress_up addr now d
  call (resets addr) now d = (reset addr d, false)
