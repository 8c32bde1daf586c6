-- ===== src/Manager/Consistent.antt =====
-- When the tables of the manager (internal/bfd/manager.go) fit together, and that the creation and
-- destruction of sessions keep them so.
use gobfd.Common.{
  ℕ, ◌<◌, ◌≡◌, ◌≢◌, ap, ◌∙◌, ◌∷◌, none, some, Bool, false, ◌==◌, ◌||◌, ◌&&◌, arith, inl, inr,
  Option-cases,
}
use gobfd.Assoc.{
  nat_key, lookup, is_some, Distinct, lookup-insert, lookup-delete, insert-Distinct,
  delete-Distinct,
}
use gobfd.Discriminator.{DiscriminatorAllocator, contains, release, is_allocated}
use gobfd.Discriminator.Fresh.{removed, contains_cons}
use gobfd.Session.{Session}
use gobfd.Echo.{EchoSession}
use gobfd.Manager.{
  SessionKey, session_key, key_eq_iff, Manager, register_and_start, destroy_session,
}

abbrev pub discr_at : Manager → ℕ → ℕ
discr_at m p = (m.heap p).endpoint.session.local_discr

abbrev pub has_session : Manager → ℕ → Bool
has_session m d = is_some (lookup d m.sessions)

abbrev pub has_echo : Manager → ℕ → Bool
has_echo m d = is_some (lookup d m.echo_sessions)

-- The tables hold the same entries, each under its own discriminator and its own key, at an
-- address that was handed out; the discriminators are not zero, no two sessions share one, and
-- exactly they are allocated.
pub record IsConsistent (m : Manager) : Type 0 where
  pub distinct : Distinct m.sessions
  pub distinct_peers : Distinct m.sessions_by_peer
  pub by_discr :
      (d p : ℕ)
      → lookup d m.sessions ≡ some p
      → (discr_at m p ≡ d)
        × (lookup (m.heap p).key m.sessions_by_peer ≡ some p)
        × (p < m.next)
        × (d ≢ 0)
  pub by_peer :
      (k : SessionKey) (p : ℕ)
      → lookup k m.sessions_by_peer ≡ some p
      → ((m.heap p).key ≡ k) × (lookup (discr_at m p) m.sessions ≡ some p)
  pub by_echo :
      (d : ℕ) (es : EchoSession)
      → lookup d m.echo_sessions ≡ some es
      → (es.local_discr ≡ d) × (d ≢ 0)
  pub apart : (d : ℕ) → (has_session m d && has_echo m d) ≡ false
  pub exact : (d : ℕ) → is_allocated d m.discriminators ≡ (has_session m d || has_echo m d)

abbrev pub allocated_in : Manager → DiscriminatorAllocator → Manager
allocated_in m d = record m { discriminators = d }

pub allocated_cons :
    (n e : ℕ) (d d' : DiscriminatorAllocator)
    → d'.allocated ≡ n ∷ d.allocated
    → is_allocated e d' ≡ (n == e || is_allocated e d)
unfolding is_allocated
allocated_cons n e d d' grown = ap (λ l. contains l e) grown ∙ contains_cons n e d.allocated

-- A new entry under a new key, whose discriminator was just allocated.
pub register-IsConsistent :
    (key : SessionKey) (discr : ℕ) (sess : Session) (m : Manager) (d : DiscriminatorAllocator)
    → IsConsistent m
    → sess.local_discr ≡ discr
    → discr ≢ 0
    → is_allocated discr m.discriminators ≡ false
    → d.allocated ≡ discr ∷ m.discriminators.allocated
    → lookup key m.sessions_by_peer ≡ none
    → IsConsistent (register_and_start key discr sess (allocated_in m d)).0
unfolding register_and_start
register-IsConsistent key discr sess m d c named z was_free grown free =
    rw (free, register_and_start)
      (record {
        distinct = insert-Distinct discr m.next m.sessions c.distinct;
        distinct_peers = insert-Distinct key m.next m.sessions_by_peer c.distinct_peers;
        by_discr = λ e p h. ground (
          arith,
          lookup-insert discr e m.next m.sessions,
          lookup-insert key key m.next m.sessions_by_peer,
          lookup-insert key (m.heap p).key m.next m.sessions_by_peer,
          key_eq_iff key key,
          key_eq_iff key (m.heap p).key,
          c.by_discr e p,
        );
        by_peer = λ k p h. ground (
          arith,
          lookup-insert key k m.next m.sessions_by_peer,
          lookup-insert discr discr m.next m.sessions,
          lookup-insert discr (discr_at m p) m.next m.sessions,
          key_eq_iff key k,
          c.by_peer k p,
          c.by_discr (discr_at m p) p,
          c.exact discr,
        );
        by_echo = c.by_echo;
        apart = λ e. ground (arith, lookup-insert discr e m.next m.sessions, c.apart e, c.exact e);
        exact = λ e. ground (
          arith,
          lookup-insert discr e m.next m.sessions,
          allocated_cons discr e m.discriminators d,
          c.exact e,
        );
      })

-- The destruction of a session, of one that is there and of one that is not.
pub destroy-IsConsistent :
    (d : ℕ) (m : Manager) → IsConsistent m → IsConsistent (destroy_session d m).0
unfolding destroy_session is_allocated release
destroy-IsConsistent d m c = elim (Option-cases (lookup d m.sessions)) [
  | inl absent ↦ rw (absent, destroy_session) c
  | inr (q, found) ↦
      rw (found, destroy_session)
        (record {
          distinct = delete-Distinct d m.sessions c.distinct;
          distinct_peers = delete-Distinct (m.heap q).key m.sessions_by_peer c.distinct_peers;
          by_discr = λ e p h. ground (
            arith,
            found,
            lookup-delete d e m.sessions,
            lookup-delete (m.heap q).key (m.heap p).key m.sessions_by_peer,
            key_eq_iff (m.heap q).key (m.heap p).key,
            c.by_discr e p,
            c.by_discr d q,
          );
          by_peer = λ k p h. ground (
            arith,
            found,
            lookup-delete (m.heap q).key k m.sessions_by_peer,
            lookup-delete d (discr_at m p) m.sessions,
            key_eq_iff (m.heap q).key k,
            c.by_peer k p,
            c.by_discr d q,
          );
          by_echo = c.by_echo;
          apart = λ e. ground (arith, lookup-delete d e m.sessions, c.apart e);
          exact = λ e. ground (
            arith,
            found,
            lookup-delete d e m.sessions,
            removed m.discriminators.allocated d e,
            c.apart e,
            c.exact e,
          );
        })
]
