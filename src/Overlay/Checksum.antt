-- ===== src/Overlay/Checksum.antt =====
-- The checksum of the IPv4 header in internal/netio/overlay_inner.go: its loop and what it sums to.
use gobfd.Common.{
  ℕ, suc, ◌+◌, ◌-◌, ◌*◌, ◌/◌, ◌%◌, ◌^◌, ◌<◌, ◌≤◌, ◌≡◌, refl, ap, ◌∙◌, some, Bool-cases, false, ltb,
  ◌==◌, arith, inl, inr,
}
use gobfd.Netip.{Addr}
use gobfd.Overlay.Inner.{
  sum_words, fold_carries, complement, fold_fuel, ipv4_header_checksum, ip_header,
}

-- One's complement arithmetic: the number that 16 bits hold of a sum, whose multiples of 65535 are
-- dropped, and which is zero only for zero.
abbrev pub Folds : ℕ → ℕ → Type 0
Folds sum r = (r < 2 ^ 16) × ((q : ℕ) × (sum ≡ q * 65535 + r)) × (0 < sum → 0 < r)

fold_one : (fuel sum : ℕ) → sum < 2 ^ 16 → fold_carries (suc fuel) sum ≡ some sum
unfolding fold_carries
fold_one fuel sum h = ground arith

fold_step :
    (fuel sum : ℕ)
    → 2 ^ 16 ≤ sum
    → sum < 2 ^ 32
    → fold_carries (suc fuel) sum ≡ fold_carries fuel (sum % 2 ^ 16 + sum / 2 ^ 16)
unfolding fold_carries
fold_step fuel sum big h =
    let small : (sum % 2 ^ 16 + sum / 2 ^ 16) % 2 ^ 32 ≡ sum % 2 ^ 16 + sum / 2 ^ 16 =
      omega arith in
    let more : (sum / 2 ^ 16 == 0) ≡ false = ground arith in rw (more, small) refl

-- Behind the first turn.
folded_twice :
    (sum s1 : ℕ)
    → ((more : ℕ) → fold_carries (fold_fuel + more) sum ≡ fold_carries (suc (suc more)) s1)
    → 2 ^ 16 ≤ sum
    → sum < 2 ^ 32
    → s1 ≡ sum % 2 ^ 16 + sum / 2 ^ 16
    → (r : ℕ) × ((more : ℕ) → fold_carries (fold_fuel + more) sum ≡ some r) × Folds sum r
folded_twice sum s1 first big h e = elim (Bool-cases (ltb s1 (2 ^ 16))) [
  | inl small ↦ (
    s1,
    λ more. first more ∙ fold_one (suc more) s1 (ground arith),
    (ground arith, (sum / 2 ^ 16, omega arith), λ p. omega arith),
  )
  | inr large ↦
      let at_least : 2 ^ 16 ≤ s1 = ground arith in
      let s2 : ℕ = s1 % 2 ^ 16 + s1 / 2 ^ 16 in
      (
        s2,
        λ more.
            first more
            ∙ fold_step (suc more) s1 at_least (omega arith)
            ∙ fold_one more s2 (omega arith),
        (omega arith, (sum / 2 ^ 16 + 1, omega arith), λ p. omega arith),
      )
]

-- The loop that folds the carries of a 32-bit sum ends: its third test at the latest is the last.
-- What it leaves is the 16-bit one's complement value of the sum.
pub fold_carries_ends :
    (sum : ℕ)
    → sum < 2 ^ 32
    → (r : ℕ) × ((more : ℕ) → fold_carries (fold_fuel + more) sum ≡ some r) × Folds sum r
fold_carries_ends sum h = elim (Bool-cases (ltb sum (2 ^ 16))) [
  | inl small ↦ (
    sum,
    λ more. ap (λ f. fold_carries f sum) (omega arith) ∙ fold_one (2 + more) sum (ground arith),
    (ground arith, (0, omega arith), λ p. p),
  )
  | inr big ↦
      let s1 : ℕ = sum % 2 ^ 16 + sum / 2 ^ 16 in
      let first : (more : ℕ)
          → fold_carries (fold_fuel + more) sum ≡ fold_carries (suc (suc more)) s1 =
        λ more.
          ap (λ f. fold_carries f sum) (omega arith)
          ∙ fold_step (suc (suc more)) sum (ground arith) h in
      folded_twice sum s1 (first) (ground arith) h refl
]

abbrev base : ℕ → Addr → Addr → ℕ
base n src dst = sum_words (ip_header n 0 src dst) 0

-- The checksum field adds its value to the sum of the header, which is far from 32 bits.
header_sum :
    (n c : ℕ) (src dst : Addr)
    → c < 2 ^ 16
    → (sum_words (ip_header n c src dst) 0 ≡ base n src dst + c)
      × (base n src dst < 2 ^ 20)
      × (0 < base n src dst)
unfolding sum_words
header_sum n c src dst h = omega arith

complement_full :
    (sum r : ℕ)
    → Folds sum r
    → 0 < sum
    → ((q : ℕ) × (sum ≡ q * 65535))
    → complement (some r) ≡ some 0
complement_full sum r (small, (q', e'), pos) more (q, e) =
    let p : 0 < r = pos more in
    let full : r ≡ 65535 = omega arith in ap (λ x. some (2 ^ 16 - 1 - x % 2 ^ 16)) full

-- For every payload length and pair of addresses the loop of the checksum ends with a value of 16
-- bits, and the header that carries this value sums to all ones: a receiver that computes the
-- checksum over it, its field included, gets zero.
pub ipv4_header_checksum_verifies :
    (n : ℕ) (src dst : Addr)
    → (c : ℕ) × (ipv4_header_checksum (ip_header n 0 src dst) ≡ some c)
      × (c < 2 ^ 16)
      × (ipv4_header_checksum (ip_header n c src dst) ≡ some 0)
unfolding ipv4_header_checksum
ipv4_header_checksum_verifies n src dst =
    let (_, small, positive) = header_sum n 0 src dst (omega arith) in
    let (r, ends, folds) = fold_carries_ends (base n src dst) (omega (arith, small)) in
    let c : ℕ = 2 ^ 16 - 1 - r % 2 ^ 16 in
    let fits : c < 2 ^ 16 = omega arith in
    let whole = (header_sum n c src dst fits).0 in
    let (r', ends', folds') = fold_carries_ends (base n src dst + c) (omega (arith, small)) in
    let (below, (q, e), p) = folds in
    (
      c,
      ap complement (ends 0),
      fits,
      ap (λ s. complement (fold_carries fold_fuel s)) whole
          ∙ ap complement (ends' 0)
          ∙ complement_full (base n src dst + c) r' folds' (omega (arith, positive))
              (q + 1, omega arith),
    )
