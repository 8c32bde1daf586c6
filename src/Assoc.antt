-- ===== src/Assoc.antt =====
-- Go's maps as association lists with at most one entry for a key.
use gobfd.Common.{
  ℕ, ◌+◌, ◌≡◌, ◌↔◌, refl, List, [], ◌∷◌, Option, none, some, Bool, true, false, ◌==◌, ==_iff,
  if◌then◌else◌, arith,
}

-- A type of keys with Go's `==`.
pub record KeyType {ℓ} (K : Type ℓ) : Type ℓ where
  pub same : K → K → Bool
  pub same_iff : (a b : K) → (same a b ≡ true) ↔ (a ≡ b)

instance abbrev pub nat_key : KeyType ℕ
nat_key = record { same = λ a b. a == b; same_iff = ==_iff }

abbrev pub is_some {ℓ} : {A : Type ℓ} → Option A → Bool
is_some none = false
is_some (some a) = true

abbrev pub one_if : Bool → ℕ
one_if true = 1
one_if false = 0

abbrev pub holds_of {ℓ} : {A : Type ℓ} → (A → Bool) → Option A → Bool
holds_of p none = false
holds_of p (some a) = p a

module _ {ℓ κ} {K : Type ℓ} {V : Type κ} ⦃key : KeyType K⦄ where
  -- `v, ok := m[k]`.
  unfoldable pub lookup : K → List (K × V) → Option V
  lookup k [] = none
  lookup k ((j, v) ∷ rest) = if key.same j k then some v else lookup k rest

  -- `delete(m, k)`.
  unfoldable pub delete : K → List (K × V) → List (K × V)
  delete k [] = []
  delete k ((j, v) ∷ rest) =
      let rest' = delete k rest in if key.same j k then rest' else (j, v) ∷ rest'

  -- `m[k] = v`.
  unfoldable pub insert : K → V → List (K × V) → List (K × V)
  insert k v entries = (k, v) ∷ delete k entries

  -- How many entries satisfy a test.
  unfoldable pub tally : (V → Bool) → List (K × V) → ℕ
  tally p [] = 0
  tally p ((k, v) ∷ rest) = one_if (p v) + tally p rest

  -- No key stands twice.
  abbrev pub Distinct : List (K × V) → Type κ
  Distinct [] = Unit
  Distinct ((k, v) ∷ rest) = (lookup k rest ≡ none) × Distinct rest

  pub lookup-delete :
      (k j : K) (entries : List (K × V))
      → lookup j (delete k entries) ≡ (if key.same k j then none else lookup j entries)
  unfolding lookup delete
  lookup-delete k j [] = ground arith
  lookup-delete k j ((i, v) ∷ rest) =
      ground (arith, key.same_iff k j, key.same_iff i k, key.same_iff i j, lookup-delete k j rest)

  pub lookup-insert :
      (k j : K) (v : V) (entries : List (K × V))
      → lookup j (insert k v entries) ≡ (if key.same k j then some v else lookup j entries)
  unfolding lookup insert
  lookup-insert k j v entries = ground (arith, lookup-delete k j entries)

  pub delete-Distinct :
      (k : K) (entries : List (K × V)) → Distinct entries → Distinct (delete k entries)
  unfolding delete
  delete-Distinct k [] d = tt
  delete-Distinct k ((j, v) ∷ rest) d =
      ground (arith, lookup-delete k j rest, delete-Distinct k rest d.1)

  pub insert-Distinct :
      (k : K) (v : V) (entries : List (K × V)) → Distinct entries → Distinct (insert k v entries)
  unfolding insert
  insert-Distinct k v entries d =
      (ground (arith, lookup-delete k k entries, key.same_iff k k), delete-Distinct k entries d)

  pub tally_absent :
      (p : V → Bool) (k : K) (entries : List (K × V))
      → lookup k entries ≡ none
      → tally p (delete k entries) ≡ tally p entries
  unfolding lookup delete tally
  tally_absent p k [] h = refl
  tally_absent p k ((j, v) ∷ rest) h = ground (arith, tally_absent p k rest)

  pub tally-delete :
      (p : V → Bool) (k : K) (entries : List (K × V))
      → Distinct entries
      → tally p (delete k entries) + one_if (holds_of p (lookup k entries)) ≡ tally p entries
  unfolding lookup delete tally
  tally-delete p k [] d = refl
  tally-delete p k ((j, v) ∷ rest) d =
      ground (arith, key.same_iff j k, tally_absent p k rest, tally-delete p k rest d.1)
