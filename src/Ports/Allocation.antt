-- ===== src/Ports/Allocation.antt =====
-- What an allocation of internal/netio/rawsock_linux.go gives.
use gobfd.Common.{
  ℕ, zero, suc, ◌+◌, ◌-◌, ◌%◌, ◌<◌, ◌≤◌, ◌≡◌, refl, sym, ap, ◌∙◌, arith, Option, none, some, true,
  false, leb, if◌then◌else◌, length, ok, err, inl, inr, Bool-cases,
}
use mathlib.Core.Path.{subst}
use gobfd.Assoc.{nat_key, lookup, insert, is_some}
use gobfd.Ports.{
  PortAllocator, port_exhausted, port_at, port_span, probe, allocate_port, from_offset,
  source_port_min, source_port_max,
}

-- A port of the range that was free and is taken, and nothing else has changed.
pub record Takes (a a' : PortAllocator) (port : ℕ) : Type 0 where
  pub at_least : source_port_min ≤ port
  pub at_most : port ≤ source_port_max
  pub was_free : lookup port a.in_use ≡ none
  pub taken : a'.in_use ≡ insert port tt a.in_use

port_in_range :
    (offset i : ℕ) → (source_port_min ≤ port_at offset i) × (port_at offset i ≤ source_port_max)
port_in_range offset i = (omega arith, omega arith)

absent_if : (o : Option (Unit {0})) → is_some o ≡ false → o ≡ none
absent_if none e = refl
absent_if (some u) e = cc

not_here :
    (offset i k : ℕ) (a : PortAllocator)
    → is_some (lookup (port_at offset i) a.in_use) ≡ true
    → lookup (port_at offset (i + k)) a.in_use ≡ none
    → 0 < k
not_here offset i zero a used free = absurd (ground arith)
not_here offset i (suc k) a used free = omega arith

-- A free port that a later turn comes to is found, or one before it.
probe-Takes :
    (left i offset k : ℕ) (a : PortAllocator)
    → k < left
    → lookup (port_at offset (i + k)) a.in_use ≡ none
    → (port : ℕ) × ((probe left i offset a).1 ≡ ok port) × Takes a (probe left i offset a).0 port
unfolding probe
probe-Takes zero i offset k a less free = absurd (omega arith)
probe-Takes (suc left) i offset k a less free =
    elim (Bool-cases (is_some (lookup (port_at offset i) a.in_use))) [
      | inl used ↦
          let positive : 0 < k = not_here offset i k a used free in
          let moved : port_at offset (i + k) ≡ port_at offset (i + 1 + (k - 1)) =
            ap (port_at offset) (omega arith) in
          rw (used, probe)
            (probe-Takes left (i + 1) offset (k - 1) a (omega arith)
              (ap (λ p. lookup p a.in_use) (sym moved) ∙ free))
      | inr unused ↦ (
        port_at offset i,
        rw (unused, probe) refl,
        rw (unused, probe)
            (record {
              at_least = (port_in_range offset i).0;
              at_most = (port_in_range offset i).1;
              was_free = absent_if (lookup (port_at offset i) a.in_use) unused;
              taken = refl;
            }),
      )
    ]

entered :
    (a : PortAllocator) (offset : ℕ)
    → length a.in_use < port_span
    → allocate_port a (some offset) ≡ probe port_span 0 offset a
unfolding allocate_port
entered a offset room =
    let roomy : leb port_span (length a.in_use) ≡ false = ground arith in
    ap (λ b. if b then (a, err port_exhausted) else from_offset a (some offset)) roomy

-- Where the random source answers, a port of the range is free, and the table is not as large as the
-- range, an allocation succeeds: it takes one port from 49152 to 65535 that was free and changes
-- nothing else. The offset may be any below the number of ports.
pub allocate_port-Takes :
    (a : PortAllocator) (offset free : ℕ)
    → offset < port_span
    → length a.in_use < port_span
    → source_port_min ≤ free
    → free ≤ source_port_max
    → lookup free a.in_use ≡ none
    → (port : ℕ) × ((allocate_port a (some offset)).1 ≡ ok port)
      × Takes a (allocate_port a (some offset)).0 port
allocate_port-Takes a offset free below room low high unused =
    let k : ℕ = (free - source_port_min + port_span - offset) % port_span in
    let reached : port_at offset (0 + k) ≡ free = omega arith in
    subst (λ r. (port : ℕ) × (r.1 ≡ ok port) × Takes a r.0 port) (sym (entered a offset room))
      (probe-Takes port_span 0 offset k a (omega arith)
        (ap (λ p. lookup p a.in_use) reached ∙ unused))
