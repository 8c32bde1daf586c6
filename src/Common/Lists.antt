-- ===== src/Common/Lists.antt =====
-- Lists measured and indexed by native numbers, and writes into a buffer.
use Prim.Native.Nat.{ℕ, zero, suc, ◌+◌, ◌-◌, ◌≤◌, min}
use mathlib.Core.Path.{◌≡◌, refl, ap}
use mathlib.Core.List.{List, [], ◌∷◌, ◌++◌}
use mathlib.Core.Option.{Option, none, some}
use native.Mathlib.Omega.{arith}

module _ {ℓ} {A : Type ℓ} where
  abbrev pub length : List A → ℕ
  length [] = 0
  length (x ∷ xs) = suc (length xs)

  abbrev pub get_elem? : List A → ℕ → Option A
  get_elem? [] i = none
  get_elem? (x ∷ xs) zero = some x
  get_elem? (x ∷ xs) (suc i) = get_elem? xs i

  abbrev pub get_or : List A → ℕ → A → A
  get_or [] i d = d
  get_or (x ∷ xs) zero d = x
  get_or (x ∷ xs) (suc i) d = get_or xs i d

  -- A write out of bounds changes nothing.
  abbrev pub set : List A → ℕ → A → List A
  set [] i v = []
  set (x ∷ xs) zero v = v ∷ xs
  set (x ∷ xs) (suc i) v = x ∷ set xs i v

  abbrev pub take : ℕ → List A → List A
  take zero xs = []
  take (suc n) [] = []
  take (suc n) (x ∷ xs) = x ∷ take n xs

  abbrev pub drop : ℕ → List A → List A
  drop zero xs = xs
  drop (suc n) [] = []
  drop (suc n) (x ∷ xs) = drop n xs

  abbrev pub replicate : ℕ → A → List A
  replicate zero a = []
  replicate (suc n) a = a ∷ replicate n a

  pub length-append : (xs ys : List A) → length (xs ++ ys) ≡ length xs + length ys
  length-append [] ys = omega arith
  length-append (x ∷ xs) ys = omega (arith, length-append xs ys)

  pub length-take : (n : ℕ) (xs : List A) → length (take n xs) ≡ min n (length xs)
  length-take zero xs = omega arith
  length-take (suc n) [] = omega arith
  length-take (suc n) (x ∷ xs) = omega (arith, length-take n xs)

  pub length-drop : (n : ℕ) (xs : List A) → length (drop n xs) ≡ length xs - n
  length-drop zero xs = omega arith
  length-drop (suc n) [] = omega arith
  length-drop (suc n) (x ∷ xs) = omega (arith, length-drop n xs)

  pub length-replicate : (n : ℕ) (a : A) → length (replicate n a) ≡ n
  length-replicate zero a = refl
  length-replicate (suc n) a = ap suc (length-replicate n a)

  pub take-append : (n : ℕ) (xs ys : List A) → length xs ≡ n → take n (xs ++ ys) ≡ xs
  take-append zero [] ys e = refl
  take-append zero (x ∷ xs) ys e = absurd (omega arith)
  take-append (suc n) [] ys e = absurd (omega arith)
  take-append (suc n) (x ∷ xs) ys e = ap (λ l. x ∷ l) (take-append n xs ys (omega arith))

  pub drop-append : (n : ℕ) (xs ys : List A) → length xs ≡ n → drop n (xs ++ ys) ≡ ys
  drop-append zero [] ys e = refl
  drop-append zero (x ∷ xs) ys e = absurd (omega arith)
  drop-append (suc n) [] ys e = absurd (omega arith)
  drop-append (suc n) (x ∷ xs) ys e = drop-append n xs ys (omega arith)

  pub take-append-drop : (n : ℕ) (xs : List A) → take n xs ++ drop n xs ≡ xs
  take-append-drop zero xs = refl
  take-append-drop (suc n) [] = refl
  take-append-drop (suc n) (x ∷ xs) = ap (λ l. x ∷ l) (take-append-drop n xs)

  pub take_all : (n : ℕ) (xs : List A) → length xs ≡ n → take n xs ≡ xs
  take_all zero [] e = refl
  take_all zero (x ∷ xs) e = absurd (omega arith)
  take_all (suc n) [] e = refl
  take_all (suc n) (x ∷ xs) e = ap (λ l. x ∷ l) (take_all n xs (omega arith))

  pub drop_all : (n : ℕ) (xs : List A) → length xs ≤ n → drop n xs ≡ []
  drop_all zero [] h = refl
  drop_all zero (x ∷ xs) h = absurd (omega arith)
  drop_all (suc n) [] h = refl
  drop_all (suc n) (x ∷ xs) h = drop_all n xs (omega arith)

  -- `copy(buf[off:], bytes)`: what does not fit is not written.
  abbrev pub write_at : ℕ → List A → List A → List A
  write_at zero [] buf = buf
  write_at zero (b ∷ bs) [] = []
  write_at zero (b ∷ bs) (x ∷ buf) = b ∷ write_at zero bs buf
  write_at (suc off) bs [] = []
  write_at (suc off) bs (x ∷ buf) = x ∷ write_at off bs buf

  pub length-write_at : (off : ℕ) (bs buf : List A) → length (write_at off bs buf) ≡ length buf
  length-write_at zero [] buf = refl
  length-write_at zero (b ∷ bs) [] = refl
  length-write_at zero (b ∷ bs) (x ∷ buf) = ap suc (length-write_at zero bs buf)
  length-write_at (suc off) bs [] = refl
  length-write_at (suc off) bs (x ∷ buf) = ap suc (length-write_at off bs buf)

  -- A write that fits replaces a prefix.
  pub write_at_front :
      (bs buf : List A) → length bs ≤ length buf → write_at 0 bs buf ≡ bs ++ drop (length bs) buf
  write_at_front [] buf h = refl
  write_at_front (b ∷ bs) [] h = absurd (omega arith)
  write_at_front (b ∷ bs) (x ∷ buf) h = ap (λ l. b ∷ l) (write_at_front bs buf (omega arith))

  -- A write behind what is already there.
  pub write_at-append :
      (pre bs buf : List A) (off : ℕ)
      → length pre ≡ off
      → write_at off bs (pre ++ buf) ≡ pre ++ write_at 0 bs buf
  write_at-append [] bs buf zero e = refl
  write_at-append [] bs buf (suc off) e = absurd (omega arith)
  write_at-append (x ∷ pre) bs buf zero e = absurd (omega arith)
  write_at-append (x ∷ pre) bs buf (suc off) e =
      ap (λ l. x ∷ l) (write_at-append pre bs buf off (omega arith))
