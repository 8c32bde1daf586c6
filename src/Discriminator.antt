-- ===== src/Discriminator.antt =====
-- The allocator of local discriminators: internal/bfd/discriminator.go. Its set of numbers is a
-- list; the mutex makes each operation one step. `crypto/rand` is a sequence of reads, of which
-- each fails or gives four bytes, here the uint32 that they hold.
pub mod Fresh
use gobfd.Common.{
  ℕ, zero, suc, ◌+◌, List, [], ◌∷◌, Option, none, some, Bool, true, false, not, ◌||◌, ◌==◌,
  if◌then◌else◌, Result, ok, err,
}

pub data AllocError : Type 0 where
  read_failed discriminator_exhausted : AllocError

abbrev pub max_alloc_attempts : ℕ
max_alloc_attempts = 100

pub record DiscriminatorAllocator : Type 0 where
  pub allocated : List ℕ

abbrev pub new_discriminator_allocator : DiscriminatorAllocator
new_discriminator_allocator = record { allocated = [] }

unfoldable pub contains : List ℕ → ℕ → Bool
contains [] n = false
contains (x ∷ xs) n = x == n || contains xs n

-- `delete` on the map.
unfoldable pub remove : List ℕ → ℕ → List ℕ
remove [] n = []
remove (x ∷ xs) n = let rest = remove xs n in if x == n then rest else x ∷ rest

-- The tests of one attempt on a number that was read.
unfoldable pub usable : DiscriminatorAllocator → ℕ → Bool
usable d discr = not (discr == 0 || contains d.allocated discr)

-- One attempt on what was read, and the attempts behind it.
unfoldable pub attempt :
    DiscriminatorAllocator
    → Option ℕ
    → DiscriminatorAllocator × Result AllocError ℕ
    → DiscriminatorAllocator × Result AllocError ℕ
attempt d none rest = (d, err read_failed)
attempt d (some discr) rest =
    if usable d discr then (record d { allocated = discr ∷ d.allocated }, ok discr) else rest

-- The loop, with the attempts that are left; `reads` numbers the reads of the random source.
unfoldable pub attempts :
    ℕ → (ℕ → Option ℕ) → ℕ → DiscriminatorAllocator → DiscriminatorAllocator × Result AllocError ℕ
attempts zero reads at d = (d, err discriminator_exhausted)
attempts (suc left) reads at d = attempt d (reads at) (attempts left reads (at + 1) d)

unfoldable pub allocate :
    (ℕ → Option ℕ) → DiscriminatorAllocator → DiscriminatorAllocator × Result AllocError ℕ
allocate reads d = attempts max_alloc_attempts reads 0 d

unfoldable pub release : ℕ → DiscriminatorAllocator → DiscriminatorAllocator
release discr d = record d { allocated = remove d.allocated discr }

unfoldable pub is_allocated : ℕ → DiscriminatorAllocator → Bool
is_allocated discr d = contains d.allocated discr
