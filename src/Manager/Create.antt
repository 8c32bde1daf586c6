-- ===== src/Manager/Create.antt =====
-- What CreateSession of internal/bfd/manager_session.go does on each branch.
use gobfd.Common.{
  ℕ, ◌<◌, ◌≡◌, ◌≢◌, ◌⊎◌, refl, sym, ap, ◌∙◌, List, [], ◌∷◌, Option, none, some, true, false, ◌==◌,
  if◌then◌else◌, arith, inl, inr, Result, ok, err, Result-cases, >>=-eq-ok, ok-injective,
}
use mathlib.Core.Path.{subst}
use gobfd.Netip.{is_valid}
use gobfd.Assoc.{nat_key, lookup, insert, lookup-insert}
use gobfd.Discriminator.{
  AllocError, DiscriminatorAllocator, contains, remove, release, is_allocated, allocate,
}
use gobfd.Discriminator.Fresh.{allocate_fresh, allocate_grows}
use gobfd.Session.{SessionConfig, Session, Channel, Env}
use gobfd.Session.Config.{new_session, initial_session, validate_session_config}
use gobfd.Session.Frame.{rebuild_cached_packet-Kept}
use gobfd.Manager.Consistent.{
  allocated_in, IsConsistent, discr_at, has_session, has_echo, register-IsConsistent,
}
use gobfd.Manager.{
  SessionKey, session_key, key_of, key_eq, Manager, ManagerError, allocate_failed, config_failed,
  Supply, register_and_start, build, build_on, allocate_and_build, check_duplicate, check_new,
  create_session,
}

remove_absent : (l : List ℕ) (n : ℕ) → contains l n ≡ false → remove l n ≡ l
unfolding contains remove
remove_absent [] n h = refl
remove_absent (x ∷ l) n h = ground (arith, remove_absent l n)

-- A number that was just handed out is given back.
pub released :
    (n : ℕ) (d d' : DiscriminatorAllocator)
    → is_allocated n d ≡ false
    → d'.allocated ≡ n ∷ d.allocated
    → release n d' ≡ d
unfolding release is_allocated remove
released n d d' free grown = ground (arith, remove_absent d.allocated n)

new_session_named :
    (env : Env) (cfg : SessionConfig) (discr : ℕ) (ch : Option Channel) (seed random : ℕ)
    (s : Session)
    → new_session env cfg discr ch seed random ≡ ok s
    → (s.local_discr ≡ discr) × (s.notify_ch ≡ ch)
unfolding new_session initial_session
new_session_named env cfg discr ch seed random s made =
    let (u, valid, same) = >>=-eq-ok (validate_session_config cfg discr) _ made in
    let made_so = sym (ok-injective same) in
    let kept = rebuild_cached_packet-Kept env (initial_session cfg discr ch seed random) in
    (
      ap (λ x. x.local_discr) made_so ∙ kept.local_discr_kept,
      ap (λ x. x.notify_ch) made_so ∙ kept.notify_kept,
    )

-- What allocate_and_build leaves: the manager as it was, or a session with a number that was free,
-- which is now allocated.
pub record Built (supply : Supply) (cfg : SessionConfig) (m : Manager) (discr : ℕ) (sess : Session)
    (d : DiscriminatorAllocator) : Type 0 where
  pub answer : allocate_and_build supply cfg m ≡ (record m { discriminators = d }, ok (discr, sess))
  pub named : sess.local_discr ≡ discr
  pub not_zero : discr ≢ 0
  pub was_free : is_allocated discr m.discriminators ≡ false
  pub grown : d.allocated ≡ discr ∷ m.discriminators.allocated
  pub made :
      new_session supply.env cfg discr (some m.raw_notify_ch) supply.seed supply.random ≡ ok sess

abbrev pub Builds : Supply → SessionConfig → Manager → Type 0
Builds supply cfg m =
    ((e : ManagerError) × (allocate_and_build supply cfg m ≡ (m, err e)))
    ⊎ ((discr : ℕ) × (sess : Session) × (d : DiscriminatorAllocator) × Built supply cfg m discr sess
          d)

-- The allocator's answer, and what NewSession makes of the number.
built_on :
    (supply : Supply) (cfg : SessionConfig) (m : Manager) (d : DiscriminatorAllocator)
    (r : Result AllocError ℕ)
    → allocate supply.reads m.discriminators ≡ (d, r)
    → Builds supply cfg m
unfolding allocate_and_build build_on build
built_on supply cfg m d (err e) h =
    let same = ((allocate_fresh supply.reads m.discriminators d (err e) h).1 e refl).0 in
    inl
      (e', ap (build_on supply cfg m) h ∙ ap (λ x. (record m { discriminators = x }, err e')) same)
  where
    e' : ManagerError
    e' = allocate_failed e
built_on supply cfg m d (ok discr) h =
    let (z, free, _) = (allocate_fresh supply.reads m.discriminators d (ok discr) h).0 discr refl in
    let grown = allocate_grows supply.reads m.discriminators d discr h in
    elim (Result-cases
      (new_session supply.env cfg discr (some m.raw_notify_ch) supply.seed supply.random)) [
        | inl (sess, e) ↦ inr (
          discr,
          sess,
          d,
          record {
            answer = ap (build_on supply cfg m) h ∙ rw (e, build) refl;
            named = (new_session_named _ _ _ _ _ _ _ e).0;
            not_zero = z;
            was_free = free;
            grown = grown;
            made = e;
          },
        )
        | inr (failure, e) ↦ inl (
          config_failed failure,
          ap (build_on supply cfg m) h
              ∙ rw (e, build)
                  (ap (λ x. (record m { discriminators = x }, err (config_failed failure)))
                    (released discr m.discriminators d free grown)),
        )
      ]

pub built : (supply : Supply) (cfg : SessionConfig) (m : Manager) → Builds supply cfg m
built supply cfg m =
    built_on supply cfg m (allocate supply.reads m.discriminators).0
      (allocate supply.reads m.discriminators).1 refl

-- A successful creation: the manager with the number allocated, and the session registered there.
pub record Created (supply : Supply) (cfg : SessionConfig) (m : Manager) (discr : ℕ)
    (sess : Session) (d : DiscriminatorAllocator) : Type 0 where
  pub was_built : Built supply cfg m discr sess d
  pub valid_peer : is_valid cfg.cfg_peer_addr ≡ true
  pub new_key : lookup (key_of cfg) m.sessions_by_peer ≡ none
  pub outcome :
      create_session supply cfg m
      ≡ ((register_and_start (key_of cfg) discr sess (allocated_in m d)).0, ok m.next)

abbrev pub Creates : Supply → SessionConfig → Manager → Type 0
Creates supply cfg m =
    ((e : ManagerError) × (create_session supply cfg m ≡ (m, err e)))
    ⊎ ((discr : ℕ) × (sess : Session) × (d : DiscriminatorAllocator) × Created supply cfg m discr
          sess d)

check_new-eq-ok :
    (cfg : SessionConfig) (m : Manager) {u : Unit {0}}
    → check_new cfg m ≡ ok u
    → (is_valid cfg.cfg_peer_addr ≡ true) × (lookup (key_of cfg) m.sessions_by_peer ≡ none)
unfolding check_new check_duplicate
check_new-eq-ok cfg m h = ground arith

registered :
    (supply : Supply) (cfg : SessionConfig) (m : Manager) {u : Unit {0}}
    → check_new cfg m ≡ ok u
    → Builds supply cfg m
    → Creates supply cfg m
unfolding create_session register_and_start
registered supply cfg m passed (inl (e, failed)) = inl (e, rw (passed, failed) refl)
registered supply cfg m passed (inr (discr, sess, d, b)) =
    let (valid, free) = check_new-eq-ok cfg m passed in
    inr (
      discr,
      sess,
      d,
      record {
        was_built = b;
        valid_peer = valid;
        new_key = free;
        outcome = rw (passed, b.answer, register_and_start, free) refl;
      },
    )

-- A creation fails and leaves the manager as it was, or it registers a new session.
pub create_cases : (supply : Supply) (cfg : SessionConfig) (m : Manager) → Creates supply cfg m
unfolding create_session register_and_start
create_cases supply cfg m = elim (Result-cases (check_new cfg m)) [
  | inl (u, passed) ↦ registered supply cfg m passed (built supply cfg m)
  | inr (e, failed) ↦ inl (e, rw failed refl)
]

-- CreateSession keeps the manager consistent, whether it succeeds or fails.
pub create-IsConsistent :
    (supply : Supply) (cfg : SessionConfig) (m : Manager)
    → IsConsistent m
    → IsConsistent (create_session supply cfg m).0
create-IsConsistent supply cfg m c = elim (create_cases supply cfg m) [
  | inl (e, failed) ↦ subst (λ r. IsConsistent r.0) (sym failed) c
  | inr (discr, sess, d, made) ↦
      let b = made.was_built in
      subst (λ r. IsConsistent r.0) (sym made.outcome)
        (register-IsConsistent (key_of cfg) discr sess m d c b.named b.not_zero b.was_free b.grown
          made.new_key)
]

-- What a successful creation leaves: a new entry under a fresh discriminator and under its key, the
-- counter and the channels as they were, and all other entries and table rows as they were.
pub record Adds (cfg : SessionConfig) (m m' : Manager) (discr : ℕ) : Type 0 where
  pub fresh_discr : (discr ≢ 0) × (has_session m discr ≡ false) × (has_echo m discr ≡ false)
  pub by_new_discr :
      (d : ℕ) → lookup d m'.sessions ≡ (if discr == d then some m.next else lookup d m.sessions)
  pub new_row : m'.sessions ≡ insert discr m.next m.sessions
  pub by_new_key :
      (k : SessionKey)
      → lookup k m'.sessions_by_peer
        ≡ (if key_eq (key_of cfg) k then some m.next else lookup k m.sessions_by_peer)
  pub named_so : discr_at m' m.next ≡ discr
  pub others : (p : ℕ) → p < m.next → m'.heap p ≡ m.heap p
  pub not_unsolicited : (m'.heap m.next).unsolicited ≡ false
  pub no_packets : (m'.heap m.next).endpoint.recv_ch ≡ []
  pub same_counter : m'.unsolicited_state ≡ m.unsolicited_state
  pub same_echo : m'.echo_sessions ≡ m.echo_sessions

Created-Adds :
    (supply : Supply) (cfg : SessionConfig) (m : Manager) (discr : ℕ) (sess : Session)
    (d : DiscriminatorAllocator)
    → IsConsistent m
    → Created supply cfg m discr sess d
    → Adds cfg m (register_and_start (key_of cfg) discr sess (allocated_in m d)).0 discr
unfolding register_and_start
Created-Adds supply cfg m discr sess d c made =
    let b = made.was_built in
    rw (made.new_key, register_and_start)
      (record {
        fresh_discr = (
          b.not_zero,
          ground (arith, b.was_free, c.exact discr),
          ground (arith, b.was_free, c.exact discr),
        );
        by_new_discr = λ e. lookup-insert discr e m.next m.sessions;
        new_row = refl;
        by_new_key = λ k. lookup-insert (key_of cfg) k m.next m.sessions_by_peer;
        named_so = ground (arith, b.named);
        others = λ p h. ground arith;
        not_unsolicited = ground arith;
        no_packets = ground arith;
        same_counter = refl;
        same_echo = refl;
      })

-- CreateSession either fails and leaves the manager exactly as it was, so that a discriminator
-- that was allocated on the way is free again; or it registers one new entry: under a
-- discriminator that is not zero and that no session and no echo session had, and under the key
-- of the configuration, which no session had, with all other entries and rows of the tables and
-- the counter of unsolicited sessions as they were.
pub create_session_outcome :
    (supply : Supply) (cfg : SessionConfig) (m m' : Manager) (r : Result ManagerError ℕ)
    → IsConsistent m
    → create_session supply cfg m ≡ (m', r)
    → ((e : ManagerError) → r ≡ err e → m' ≡ m)
      × ((p : ℕ)
          → r ≡ ok p
          → (p ≡ m.next)
            × (is_valid cfg.cfg_peer_addr ≡ true)
            × (lookup (key_of cfg) m.sessions_by_peer ≡ none)
            × ((discr : ℕ) × Adds cfg m m' discr))
create_session_outcome supply cfg m m' r c h = elim (create_cases supply cfg m) [
  | inl (e, failed) ↦ (λ f q. cc, λ p q. absurd (cc))
  | inr (discr, sess, d, made) ↦
      let after = sym made.outcome ∙ h in
      (
        λ e q. absurd (cc),
        λ p q. (
          ok-injective (sym q ∙ ap (λ x. x.1) (sym after)),
          made.valid_peer,
          made.new_key,
          (
            discr,
            subst (λ x. Adds cfg m x discr) (ap (λ x. x.0) after)
                (Created-Adds supply cfg m discr sess d c made),
          ),
        ),
      )
]
