-- ===== src/Discriminator/Fresh.antt =====
-- Which numbers the allocator of internal/bfd/discriminator.go hands out.
use gobfd.Common.{
  ℕ, zero, suc, ◌+◌, ◌<◌, ◌≡◌, ◌≢◌, refl, ap, ◌∙◌, List, [], ◌∷◌, Option, some, true, false, not,
  ◌||◌, ◌&&◌, ◌==◌, arith, inl, inr, Option-cases, Result, ok, err,
}
use gobfd.Discriminator.{
  AllocError, discriminator_exhausted, DiscriminatorAllocator, contains, remove, usable, attempt,
  attempts, allocate, release, is_allocated, max_alloc_attempts,
}

-- The first read is the one at `at`, and `left` attempts are made.
fresh :
    (left : ℕ) (reads : ℕ → Option ℕ) (at n : ℕ) (d d' : DiscriminatorAllocator)
    → attempts left reads at d ≡ (d', ok n)
    → (usable d n ≡ true) × (d'.allocated ≡ n ∷ d.allocated)
unfolding attempts attempt
fresh zero reads at n d d' h = absurd (cc)
fresh (suc left) reads at n d d' h = ground (arith, fresh left reads (at + 1) n d d')

-- Every attempt up to and without the k-th one met a number that was zero or taken.
abbrev pub AllTaken : DiscriminatorAllocator → (ℕ → Option ℕ) → ℕ → ℕ → Type 0
AllTaken d reads at zero = Unit
AllTaken d reads at (suc k) =
    ((n : ℕ) × (reads at ≡ some n) × (usable d n ≡ false)) × AllTaken d reads (at + 1) k

failed :
    (left : ℕ) (reads : ℕ → Option ℕ) (at : ℕ) (e : AllocError) (d d' : DiscriminatorAllocator)
    → attempts left reads at d ≡ (d', err e)
    → (d' ≡ d) × (e ≡ discriminator_exhausted → AllTaken d reads at left)
unfolding attempts attempt
failed zero reads at e d d' h = (cc, λ q. tt)
failed (suc left) reads at e d d' h = elim (Option-cases (reads at)) [
  | inl e1 ↦ ground (arith, e1)
  | inr (n, e1) ↦ ground (arith, e1, failed left reads (at + 1) e d d')
]

pub contains_cons : (x n : ℕ) (l : List ℕ) → contains (x ∷ l) n ≡ (x == n || contains l n)
unfolding contains
contains_cons x n l = refl

-- A number that is handed out is not zero and was not allocated; after it, exactly it and what was
-- allocated before are. A failed call changes nothing, and the allocator reports exhaustion only
-- after a hundred numbers that were each zero or taken.
pub allocate_fresh :
    (reads : ℕ → Option ℕ) (d d' : DiscriminatorAllocator) (r : Result AllocError ℕ)
    → allocate reads d ≡ (d', r)
    → ((n : ℕ)
        → r ≡ ok n
        → (n ≢ 0)
          × (is_allocated n d ≡ false)
          × ((m : ℕ) → is_allocated m d' ≡ (n == m || is_allocated m d)))
      × ((e : AllocError)
          → r ≡ err e
          → (d' ≡ d) × (e ≡ discriminator_exhausted → AllTaken d reads 0 max_alloc_attempts))
unfolding allocate is_allocated usable
allocate_fresh reads d d' r h = (
  λ n e.
      let (free, grown) = fresh max_alloc_attempts reads 0 n d d' (h ∙ ap (λ x. (d', x)) e) in
      (
        ground (arith, free),
        ground (arith, free),
        λ m. ap (λ l. contains l m) grown ∙ contains_cons n m d.allocated,
      ),
  λ x e. failed max_alloc_attempts reads 0 x d d' (h ∙ ap (λ y. (d', y)) e),
)

-- What a successful call leaves in the set.
pub allocate_grows :
    (reads : ℕ → Option ℕ) (d d' : DiscriminatorAllocator) (n : ℕ)
    → allocate reads d ≡ (d', ok n)
    → d'.allocated ≡ n ∷ d.allocated
unfolding allocate
allocate_grows reads d d' n h = (fresh max_alloc_attempts reads 0 n d d' h).1

pub removed : (l : List ℕ) (n m : ℕ) → contains (remove l n) m ≡ (not (n == m) && contains l m)
unfolding contains remove
removed [] n m = ground arith
removed (x ∷ l) n m = ground (arith, removed l n m)

-- A released number is free again, and every other number keeps its status: so a number that was
-- not allocated is released without effect.
pub release_frees :
    (n m : ℕ) (d : DiscriminatorAllocator)
    → is_allocated m (release n d) ≡ (not (n == m) && is_allocated m d)
unfolding is_allocated release
release_frees n m d = removed d.allocated n m

-- The attempts reach the first usable number.
found :
    (k left : ℕ) (reads : ℕ → Option ℕ) (at n : ℕ) (d : DiscriminatorAllocator)
    → AllTaken d reads at k
    → reads (at + k) ≡ some n
    → usable d n ≡ true
    → k < left
    → (attempts left reads at d).1 ≡ ok n
unfolding attempts attempt
found k zero reads at n d t r u h = absurd (omega arith)
found zero (suc left) reads at n d t r u h =
    let r' : reads at ≡ some n = ap reads (omega arith) ∙ r in ground (arith, r', u)
found (suc k) (suc left) reads at n d ((x, e, taken), t) r u h =
    let r' : reads ((at + 1) + k) ≡ some n = ap reads (omega arith) ∙ r in
    ground (arith, e, taken, found k left reads (at + 1) n d t r' u (omega arith))

free_usable :
    (n : ℕ) (d : DiscriminatorAllocator)
    → n ≢ 0
    → contains d.allocated n ≡ false
    → usable d n ≡ true
unfolding usable
free_usable n d z f = ground (arith, f)

-- The first usable number among the hundred reads is handed out, if no read before it fails.
pub allocate_finds :
    (k : ℕ) (reads : ℕ → Option ℕ) (n : ℕ) (d : DiscriminatorAllocator)
    → k < max_alloc_attempts
    → AllTaken d reads 0 k
    → reads k ≡ some n
    → n ≢ 0
    → is_allocated n d ≡ false
    → (allocate reads d).1 ≡ ok n
unfolding allocate is_allocated
allocate_finds k reads n d h t r z f =
    found k max_alloc_attempts reads 0 n d t (ap reads (omega arith) ∙ r) (free_usable n d z f) h
