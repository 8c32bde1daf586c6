-- ===== src/Manager/EchoTables.antt =====
-- The echo sessions of the manager (internal/bfd/manager_echo.go), on the consistency of the tables.
use gobfd.Common.{
  ℕ, ◌≡◌, ◌≢◌, ◌⊎◌, refl, sym, ap, ◌∷◌, Option, some, true, false, arith, inl, inr, Option-cases,
  Bool-cases, Result, ok, err, Result-cases, >>=-eq-ok, ok-injective,
}
use mathlib.Core.Path.{subst}
use gobfd.Assoc.{nat_key, lookup, insert, lookup-insert, lookup-delete}
use gobfd.Netip.{is_valid}
use gobfd.Discriminator.{AllocError, DiscriminatorAllocator, allocate, release, is_allocated}
use gobfd.Discriminator.Fresh.{allocate_fresh, allocate_grows, removed}
use gobfd.Session.{Channel}
use gobfd.Echo.{
  EchoSessionConfig, EchoSession, initial_echo_session, new_echo_session, rebuild_cached_packet,
  recv_echo, validate_echo_config,
}
use gobfd.Manager.{Manager, ManagerError, allocate_failed, echo_failed, invalid_peer_addr}
use gobfd.Manager.Consistent.{IsConsistent, allocated_cons}
use gobfd.Manager.Create.{released}
use gobfd.Manager.Echo.{
  add_echo, add_echo_on, create_echo_session, destroy_echo_session, demux_echo,
}

new_echo_named :
    (cfg : EchoSessionConfig) (discr : ℕ) (ch : Option Channel) (es : EchoSession)
    → new_echo_session cfg discr ch ≡ ok es
    → es.local_discr ≡ discr
unfolding new_echo_session initial_echo_session rebuild_cached_packet
new_echo_named cfg discr ch es made =
    let (u, valid, same) = >>=-eq-ok (validate_echo_config cfg discr) _ made in
    ap (λ x. x.local_discr) (sym (ok-injective same))

-- A successful creation.
abbrev pub with_echo : ℕ → EchoSession → DiscriminatorAllocator → Manager → Manager
with_echo discr es d m = record m {
  echo_sessions = insert discr es m.echo_sessions;
  discriminators = d;
}

with_echo-IsConsistent :
    (discr : ℕ) (es : EchoSession) (d : DiscriminatorAllocator) (m : Manager)
    → IsConsistent m
    → es.local_discr ≡ discr
    → discr ≢ 0
    → is_allocated discr m.discriminators ≡ false
    → d.allocated ≡ discr ∷ m.discriminators.allocated
    → IsConsistent (with_echo discr es d m)
with_echo-IsConsistent discr es d m c named z free grown = record {
  distinct = c.distinct;
  distinct_peers = c.distinct_peers;
  by_discr = c.by_discr;
  by_peer = c.by_peer;
  by_echo =
      λ e es' h. ground (arith, named, lookup-insert discr e es m.echo_sessions, c.by_echo e es');
  apart = λ e. ground (arith, lookup-insert discr e es m.echo_sessions, c.apart e, c.exact e);
  exact = λ e. ground (
    arith,
    lookup-insert discr e es m.echo_sessions,
    allocated_cons discr e m.discriminators d,
    c.exact e,
  );
}

-- CreateEchoSession leaves the manager as it was, or adds one session under a number that was free.
abbrev pub CreatesEcho : (ℕ → Option ℕ) → EchoSessionConfig → Manager → Type 0
CreatesEcho reads cfg m =
    ((e : ManagerError) × (create_echo_session reads cfg m ≡ (m, err e)))
    ⊎ ((discr : ℕ) × (es : EchoSession) × (d : DiscriminatorAllocator) × (create_echo_session reads
            cfg m
          ≡ (with_echo discr es d m, ok discr))
        × (es.local_discr ≡ discr)
        × (discr ≢ 0)
        × (is_allocated discr m.discriminators ≡ false)
        × (d.allocated ≡ discr ∷ m.discriminators.allocated))

added :
    (reads : ℕ → Option ℕ) (cfg : EchoSessionConfig) (m : Manager) (d : DiscriminatorAllocator)
    (r : Result AllocError ℕ)
    → is_valid cfg.echo_peer_addr ≡ true
    → allocate reads m.discriminators ≡ (d, r)
    → CreatesEcho reads cfg m
unfolding create_echo_session add_echo_on add_echo
added reads cfg m d (err e) valid h =
    let same = ((allocate_fresh reads m.discriminators d (err e) h).1 e refl).0 in
    inl (allocate_failed e, rw (valid, h, same) refl)
added reads cfg m d (ok discr) valid h =
    let (z, free, _) = (allocate_fresh reads m.discriminators d (ok discr) h).0 discr refl in
    let grown = allocate_grows reads m.discriminators d discr h in
    elim (Result-cases (new_echo_session cfg discr (some m.raw_notify_ch))) [
      | inl (es, e) ↦ inr (
        discr,
        es,
        d,
        rw (valid, h, e, add_echo) refl,
        new_echo_named cfg discr _ es e,
        z,
        free,
        grown,
      )
      | inr (failure, e) ↦ inl (
        echo_failed failure,
        rw (valid, h, e, add_echo)
            (ap (λ x. (record m { discriminators = x }, err (echo_failed failure)))
              (released discr m.discriminators d free grown)),
      )
    ]

pub create_echo_cases :
    (reads : ℕ → Option ℕ) (cfg : EchoSessionConfig) (m : Manager) → CreatesEcho reads cfg m
unfolding create_echo_session
create_echo_cases reads cfg m = elim (Bool-cases (is_valid cfg.echo_peer_addr)) [
  | inl valid ↦
      added reads cfg m (allocate reads m.discriminators).0 (allocate reads m.discriminators).1
        valid refl
  | inr bad ↦ inl (invalid_peer_addr, rw bad refl)
]

pub create_echo-IsConsistent :
    (reads : ℕ → Option ℕ) (cfg : EchoSessionConfig) (m : Manager)
    → IsConsistent m
    → IsConsistent (create_echo_session reads cfg m).0
create_echo-IsConsistent reads cfg m c = elim (create_echo_cases reads cfg m) [
  | inl (e, failed) ↦ subst (λ r. IsConsistent r.0) (sym failed) c
  | inr (discr, es, d, made, named, z, free, grown) ↦
      subst (λ r. IsConsistent r.0) (sym made)
        (with_echo-IsConsistent discr es d m c named z free grown)
]

pub destroy_echo-IsConsistent :
    (d : ℕ) (m : Manager) → IsConsistent m → IsConsistent (destroy_echo_session d m).0
unfolding destroy_echo_session is_allocated release
destroy_echo-IsConsistent d m c = elim (Option-cases (lookup d m.echo_sessions)) [
  | inl absent ↦ rw (absent, destroy_echo_session) c
  | inr (es, found) ↦
      rw (found, destroy_echo_session)
        (record {
          distinct = c.distinct;
          distinct_peers = c.distinct_peers;
          by_discr = c.by_discr;
          by_peer = c.by_peer;
          by_echo = λ e es' h. ground (arith, lookup-delete d e m.echo_sessions, c.by_echo e es');
          apart = λ e. ground (arith, lookup-delete d e m.echo_sessions, c.apart e);
          exact = λ e. ground (
            arith,
            found,
            lookup-delete d e m.echo_sessions,
            removed m.discriminators.allocated d e,
            c.apart e,
            c.exact e,
          );
        })
]

recv_echo-discr : (es : EchoSession) → (recv_echo es).local_discr ≡ es.local_discr
unfolding recv_echo
recv_echo-discr es = ground arith

pub demux_echo-IsConsistent :
    (d : ℕ) (m : Manager) → IsConsistent m → IsConsistent (demux_echo d m).0
unfolding demux_echo
demux_echo-IsConsistent d m c = elim (Option-cases (lookup d m.echo_sessions)) [
  | inl absent ↦ rw (absent, demux_echo) c
  | inr (es, found) ↦
      rw (found, demux_echo)
        (record {
          distinct = c.distinct;
          distinct_peers = c.distinct_peers;
          by_discr = c.by_discr;
          by_peer = c.by_peer;
          by_echo = λ e es' h. ground (
            arith,
            found,
            lookup-insert d e (recv_echo es) m.echo_sessions,
            recv_echo-discr es,
            c.by_echo e es',
            c.by_echo d es,
          );
          apart = λ e.
              ground (arith, found, lookup-insert d e (recv_echo es) m.echo_sessions, c.apart e);
          exact = λ e.
              ground (arith, found, lookup-insert d e (recv_echo es) m.echo_sessions, c.exact e);
        })
]
