-- ===== src/Intervals.antt =====
-- The common intervals of RFC 7419: internal/bfd/intervals.go.
use gobfd.Common.{
  ℕ, ◌+◌, ◌-◌, ◌*◌, ◌<◌, ◌≤◌, ◌≡◌, ◌⊎◌, refl, arith, List, [], ◌∷◌, Bool, true, false, ltb, leb,
  ◌==◌, ◌||◌, if◌then◌else◌, inl, inr, Bool-cases, sym,
}
use mathlib.Core.Path.{subst}
use gobfd.Duration.{ℤ, pos, negsuc, pos_part, not_positive, microsecond, millisecond, second}

abbrev pub common_intervals : List ℕ
common_intervals =
    3300 * microsecond
    ∷ 10 * millisecond
    ∷ 20 * millisecond
    ∷ 50 * millisecond
    ∷ 100 * millisecond
    ∷ second
    ∷ []

-- The loop over the intervals.
unfoldable pub is_one_of : List ℕ → ℕ → Bool
is_one_of [] d = false
is_one_of (ci ∷ rest) d = d == ci || is_one_of rest d

unfoldable pub is_common_interval : ℤ → Bool
unfolding is_one_of
is_common_interval (pos d) = is_one_of common_intervals d
is_common_interval (negsuc d) = false

-- The loop; with no interval left, the duration itself.
unfoldable pub align_from : List ℕ → ℕ → ℕ
align_from [] d = d
align_from (ci ∷ rest) d = if leb d ci then ci else align_from rest d

unfoldable pub align_to_common_interval : ℤ → ℤ
align_to_common_interval d =
    if not_positive d then d else pos (align_from common_intervals (pos_part d))

-- `absDuration(a - b)`.
abbrev pub abs_difference : ℕ → ℕ → ℕ
abs_difference a b = (a - b) + (b - a)

-- The loop, with the best interval so far and its distance.
unfoldable pub nearest_from : List ℕ → ℕ → ℕ → ℕ → ℕ
nearest_from [] d best best_delta = best
nearest_from (ci ∷ rest) d best best_delta =
    let delta = abs_difference d ci in
    nearest_from rest d (if ltb delta best_delta then ci else best)
      (if ltb delta best_delta then delta else best_delta)

abbrev pub smallest : ℕ
smallest = 3300 * microsecond

abbrev pub others : List ℕ
others = 10 * millisecond ∷ 20 * millisecond ∷ 50 * millisecond ∷ 100 * millisecond ∷ second ∷ []

unfoldable pub nearest_common_interval : ℤ → ℕ
nearest_common_interval d =
    if not_positive d
    then smallest
    else nearest_from others (pos_part d) smallest (abs_difference (pos_part d) smallest)

-- One of a list.
abbrev pub In : ℕ → List ℕ → Type 0
In d [] = ⊥
In d (x ∷ xs) = (d ≡ x) ⊎ In d xs

abbrev pub All : (ℕ → Type 0) → List ℕ → Type 0
All P [] = Unit
All P (x ∷ xs) = P x × All P xs

align_from_lem :
    (l : List ℕ) (d : ℕ)
    → ((align_from l d ≡ d) × All (λ c. c < d) l) ⊎ (In (align_from l d) l × (d ≤ align_from l d))
unfolding align_from
align_from_lem [] d = inl (refl, tt)
align_from_lem (c ∷ l) d = ground (arith, align_from_lem l d)

-- Any positive duration up to a second is rounded up to a common interval that is not below it,
-- and every smaller common interval is below the duration; a longer duration is left as it is.
pub align_least :
    (n : ℕ)
    → 0 < n
    → (n ≤ second
        → (r : ℕ) × (align_to_common_interval (pos n) ≡ pos r)
          × (is_common_interval (pos r) ≡ true)
          × (n ≤ r)
          × All (λ c. (c < n) ⊎ (r ≤ c)) common_intervals)
      × (second < n → align_to_common_interval (pos n) ≡ pos n)
unfolding align_to_common_interval align_from is_common_interval is_one_of
align_least n h = (
  λ le. (align_from common_intervals n, ground arith, ground arith, ground arith, ground arith),
  λ lt. ground arith,
)

-- Nearer to `d`, or as near and not larger.
abbrev pub Better : ℕ → ℕ → ℕ → Type 0
Better d r c =
    (abs_difference d r < abs_difference d c)
    ⊎ ((abs_difference d r ≡ abs_difference d c) × (r ≤ c))

abbrev Ascending : ℕ → List ℕ → Type 0
Ascending b [] = Unit
Ascending b (c ∷ l) = (b < c) × Ascending c l

Ascending-below : (b c : ℕ) (l : List ℕ) → b ≤ c → Ascending c l → Ascending b l
Ascending-below b c [] h a = tt
Ascending-below b c (x ∷ l) h (k, a) = (omega arith, a)

-- `r` is the best of `best` and the list.
abbrev Nearest : ℕ → List ℕ → ℕ → ℕ → Type 0
Nearest best l d r = ((r ≡ best) ⊎ In r l) × Better d r best × All (Better d r) l

nearest_step :
    (c : ℕ) (l : List ℕ) (d best : ℕ)
    → (ltb (abs_difference d c) (abs_difference d best) ≡ true
        → nearest_from (c ∷ l) d best (abs_difference d best)
          ≡ nearest_from l d c (abs_difference d c))
      × (ltb (abs_difference d c) (abs_difference d best) ≡ false
          → nearest_from (c ∷ l) d best (abs_difference d best)
            ≡ nearest_from l d best (abs_difference d best))
unfolding nearest_from
nearest_step c l d best = (λ e. rw e, λ e. rw e)

nearest_lem :
    (l : List ℕ) (d best : ℕ)
    → Ascending best l
    → Nearest best l d (nearest_from l d best (abs_difference d best))
unfolding nearest_from
nearest_lem [] d best a = (inl refl, inr (refl, omega arith), tt)
nearest_lem (c ∷ l) d best (k, a) =
    elim (Bool-cases (ltb (abs_difference d c) (abs_difference d best))) [
      | inl e ↦
          let (i, b, all_) = nearest_lem l d c a in
          subst (Nearest best (c ∷ l) d) (sym ((nearest_step c l d best).0 e))
            (inr i, ground (arith, b, e), (b, all_))
      | inr e ↦
          let (i, b, all_) = nearest_lem l d best (Ascending-below best c l (omega arith) a) in
          subst (Nearest best (c ∷ l) d) (sym ((nearest_step c l d best).1 e))
            (ground (arith, i), b, (ground (arith, b, e), all_))
    ]

-- The nearest common interval to a positive duration is a common interval, none is nearer, and of
-- those as near it is the smallest; for a duration that is not positive it is the smallest of all.
pub nearest_is_nearest :
    (d : ℤ)
    → (not_positive d ≡ false
        → In (nearest_common_interval d) common_intervals
          × All (Better (pos_part d) (nearest_common_interval d)) common_intervals)
      × (not_positive d ≡ true
          → In (nearest_common_interval d) common_intervals
            × All (λ c. nearest_common_interval d ≤ c) common_intervals)
unfolding nearest_common_interval
nearest_is_nearest d =
    let (i, b, all_) = nearest_lem others (pos_part d) smallest (omega arith) in
    (λ e. rw (e) (i, (b, all_)), λ e. rw (e) (inl refl, omega arith))
