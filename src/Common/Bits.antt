-- ===== src/Common/Bits.antt =====
-- Masks on one byte as arithmetic, by tables that are evaluated, and big-endian words.
use Prim.Native.Nat.{ℕ, zero, suc, ◌+◌, ◌*◌, ◌/◌, ◌%◌, ◌^◌, ◌<◌, bit_and, bit_or}
use mathlib.Core.Path.{◌≡◌, refl}
use mathlib.Core.Bool.{Bool, true, ◌&&◌}
use mathlib.Core.List.{List, [], ◌∷◌}
use native.Mathlib.Omega.{arith}
use gobfd.Common.Tests.{◌==◌, ==_iff}
use gobfd.Common.Lists.{get_or}

-- Every number below `n` passes the test.
below_all : ℕ → (ℕ → Bool) → Bool
below_all zero p = true
below_all (suc n) p = p n && below_all n p

below_all_sound : (n : ℕ) (p : ℕ → Bool) → below_all n p ≡ true → (x : ℕ) → x < n → p x ≡ true
unfolding below_all
below_all_sound zero p h x lt = absurd (omega arith)
below_all_sound (suc n) p h x lt =
    ground (arith, λ (e : below_all n p ≡ true). below_all_sound n p e x)

module _ (f g : ℕ → ℕ) where
  table : (n : ℕ) → below_all n (λ x. f x == g x) ≡ true → (x : ℕ) → x < n → f x ≡ g x
  table n h x lt = (==_iff (f x) (g x)).0 (below_all_sound n (λ y. f y == g y) h x lt)

-- `x & 1<<k` picks one bit of a byte.
pub bit_and_32 : (x : ℕ) → x < 256 → bit_and x 32 ≡ x / 32 % 2 * 32
unfolding below_all
bit_and_32 = table (λ x. bit_and x 32) (λ x. x / 32 % 2 * 32) 256 refl

pub bit_and_16 : (x : ℕ) → x < 256 → bit_and x 16 ≡ x / 16 % 2 * 16
unfolding below_all
bit_and_16 = table (λ x. bit_and x 16) (λ x. x / 16 % 2 * 16) 256 refl

pub bit_and_8 : (x : ℕ) → x < 256 → bit_and x 8 ≡ x / 8 % 2 * 8
unfolding below_all
bit_and_8 = table (λ x. bit_and x 8) (λ x. x / 8 % 2 * 8) 256 refl

pub bit_and_4 : (x : ℕ) → x < 256 → bit_and x 4 ≡ x / 4 % 2 * 4
unfolding below_all
bit_and_4 = table (λ x. bit_and x 4) (λ x. x / 4 % 2 * 4) 256 refl

pub bit_and_2 : (x : ℕ) → x < 256 → bit_and x 2 ≡ x / 2 % 2 * 2
unfolding below_all
bit_and_2 = table (λ x. bit_and x 2) (λ x. x / 2 % 2 * 2) 256 refl

pub bit_and_1 : (x : ℕ) → x < 256 → bit_and x 1 ≡ x % 2
unfolding below_all
bit_and_1 = table (λ x. bit_and x 1) (λ x. x % 2) 256 refl

pub bit_and_31 : (x : ℕ) → x < 256 → bit_and x 31 ≡ x % 32
unfolding below_all
bit_and_31 = table (λ x. bit_and x 31) (λ x. x % 32) 256 refl

pub bit_and_63 : (x : ℕ) → x < 256 → bit_and x 63 ≡ x % 64
unfolding below_all
bit_and_63 = table (λ x. bit_and x 63) (λ x. x % 64) 256 refl

-- `x | 1<<k` sets a bit that is clear together with all below it.
pub bit_or_zero : (n : ℕ) → n < 64 → bit_or 0 n ≡ n
unfolding below_all
bit_or_zero = table (λ x. bit_or 0 x) (λ x. x) 64 refl

pub bit_or_32 : (y : ℕ) → y < 4 → bit_or (y * 64) 32 ≡ y * 64 + 32
unfolding below_all
bit_or_32 = table (λ y. bit_or (y * 64) 32) (λ y. y * 64 + 32) 4 refl

pub bit_or_16 : (y : ℕ) → y < 8 → bit_or (y * 32) 16 ≡ y * 32 + 16
unfolding below_all
bit_or_16 = table (λ y. bit_or (y * 32) 16) (λ y. y * 32 + 16) 8 refl

pub bit_or_8 : (y : ℕ) → y < 16 → bit_or (y * 16) 8 ≡ y * 16 + 8
unfolding below_all
bit_or_8 = table (λ y. bit_or (y * 16) 8) (λ y. y * 16 + 8) 16 refl

pub bit_or_4 : (y : ℕ) → y < 32 → bit_or (y * 8) 4 ≡ y * 8 + 4
unfolding below_all
bit_or_4 = table (λ y. bit_or (y * 8) 4) (λ y. y * 8 + 4) 32 refl

pub bit_or_2 : (y : ℕ) → y < 64 → bit_or (y * 4) 2 ≡ y * 4 + 2
unfolding below_all
bit_or_2 = table (λ y. bit_or (y * 4) 2) (λ y. y * 4 + 2) 64 refl

pub bit_or_1 : (y : ℕ) → y < 128 → bit_or (y * 2) 1 ≡ y * 2 + 1
unfolding below_all
bit_or_1 = table (λ y. bit_or (y * 2) 1) (λ y. y * 2 + 1) 128 refl

-- A byte of three high and five low bits.
pub bit_or_split : (v d : ℕ) → v < 8 → d < 32 → bit_or (v * 32) d ≡ v * 32 + d
unfolding below_all
bit_or_split v d hv hd =
    let e : bit_or ((v * 32 + d) / 32 * 32) ((v * 32 + d) % 32) ≡ v * 32 + d =
      table (λ x. bit_or (x / 32 * 32) (x % 32)) (λ x. x) 256 refl (v * 32 + d) (omega arith) in
    let q : (v * 32 + d) / 32 ≡ v = omega arith in
    let r : (v * 32 + d) % 32 ≡ d = omega arith in rw (q, r) at e

-- `binary.BigEndian.PutUint32`, the bytes that it writes.
abbrev pub uint32_bytes : ℕ → List ℕ
uint32_bytes n = n / 2 ^ 24 % 256 ∷ n / 2 ^ 16 % 256 ∷ n / 2 ^ 8 % 256 ∷ n % 256 ∷ []

-- `binary.BigEndian.Uint32` of the four bytes from `off` on.
abbrev pub uint32_at : List ℕ → ℕ → ℕ
uint32_at buf off =
    get_or buf off 0 * 2 ^ 24
    + get_or buf (off + 1) 0 * 2 ^ 16
    + get_or buf (off + 2) 0 * 2 ^ 8
    + get_or buf (off + 3) 0

pub uint32_round_trip :
    (n : ℕ)
    → n < 2 ^ 32
    → n / 2 ^ 24 % 256 * 2 ^ 24 + n / 2 ^ 16 % 256 * 2 ^ 16 + n / 2 ^ 8 % 256 * 2 ^ 8 + n % 256 ≡ n
uint32_round_trip n h = omega arith
