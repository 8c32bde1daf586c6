-- ===== src/Manager/Reload.antt =====
-- What ReconcileSessions (internal/bfd/manager_session.go) makes of the sessions of the manager.
use gobfd.Common.{
  ℕ, ◌+◌, ◌≡◌, refl, sym, ap, ◌∙◌, List, [], ◌∷◌, none, some, Bool, false, not, ◌||◌, ◌&&◌,
  if◌then◌else◌, arith, inl, inr, Bool-cases, ok, Result-cases,
}
use gobfd.Assoc.{nat_key, lookup, is_some, Distinct, lookup-delete}
use gobfd.Session.{SessionConfig}
use gobfd.Manager.{
  SessionKey, session_key, key_eq, key_eq_iff, key_of, Manager, Supply, create_session,
  destroy_session,
}
use gobfd.Manager.Consistent.{IsConsistent, discr_at, destroy-IsConsistent}
use gobfd.Manager.Create.{create_session_outcome, create-IsConsistent}
use gobfd.Manager.Reconcile.{Outcome, tally_call, destroy_unwanted, create_missing}

-- The session of a key, destroyed.
destroyed_one :
    (k0 : SessionKey) (p d : ℕ) (m : Manager)
    → IsConsistent m
    → lookup k0 m.sessions_by_peer ≡ some p
    → discr_at m p ≡ d
    → ((destroy_session d m).1 ≡ ok tt)
      × ((k : SessionKey)
          → lookup k (destroy_session d m).0.sessions_by_peer
            ≡ (if key_eq k0 k then none else lookup k m.sessions_by_peer))
      × ((q : ℕ) → discr_at (destroy_session d m).0 q ≡ discr_at m q)
unfolding destroy_session
destroyed_one k0 p d m c there named =
    let (key, found') = c.by_peer k0 p there in
    let found : lookup d m.sessions ≡ some p = ap (λ x. lookup x m.sessions) (sym named) ∙ found' in
    rw (found, destroy_session)
      (
        refl,
        λ k.
            lookup-delete (m.heap p).key k m.sessions_by_peer
            ∙ ap (λ x. if key_eq x k then none else lookup k m.sessions_by_peer) key,
        λ q. ground arith,
      )

module _ (text : SessionKey → ℕ) (injective : (k j : SessionKey) → text k ≡ text j → k ≡ j) where
  -- Each row is the text and the discriminator of a session in the table.
  abbrev pub Rows : List (ℕ × ℕ) → Manager → Type 0
  Rows [] m = Unit
  Rows ((t, d) ∷ rest) m =
      ((k : SessionKey) × (p : ℕ) × (text k ≡ t)
        × (lookup k m.sessions_by_peer ≡ some p)
        × (discr_at m p ≡ d))
      × Rows rest m

  -- The other rows outlive the destruction of a session.
  kept_apart :
      (rows : List (ℕ × ℕ)) (k0 : SessionKey) (m m' : Manager)
      → lookup (text k0) rows ≡ none
      → ((k : SessionKey)
          → lookup k m'.sessions_by_peer
            ≡ (if key_eq k0 k then none else lookup k m.sessions_by_peer))
      → ((q : ℕ) → discr_at m' q ≡ discr_at m q)
      → Rows rows m
      → Rows rows m'
  unfolding lookup
  kept_apart [] k0 m m' absent kept same r = tt
  kept_apart ((t, d) ∷ rest) k0 m m' absent kept same ((k, p, is_text, there, named), r) =
      let other : key_eq k0 k ≡ false = ground (arith, key_eq_iff k0 k, ap text) in
      (
        (k, p, is_text, kept k ∙ rw other there, same p ∙ named),
        kept_apart rest k0 m m' (ground (arith, absent)) kept same r,
      )

  abbrev pub unwanted : List (ℕ × SessionConfig) → List (ℕ × ℕ) → SessionKey → Bool
  unwanted desired rows k =
      is_some (lookup (text k) rows) && not (is_some (lookup (text k) desired))

  -- What the loop that destroys leaves.
  abbrev pub Thinned : List (ℕ × SessionConfig) → List (ℕ × ℕ) → Outcome → Outcome → Type 0
  Thinned desired rows o o' =
      (o'.errs ≡ o.errs)
      × IsConsistent o'.manager
      × ((k : SessionKey)
          → lookup k o'.manager.sessions_by_peer
            ≡ (if unwanted desired rows k then none else lookup k o.manager.sessions_by_peer))

  pub thin :
      (desired : List (ℕ × SessionConfig)) (rows : List (ℕ × ℕ)) (o : Outcome)
      → Distinct rows
      → IsConsistent o.manager
      → Rows rows o.manager
      → Thinned desired rows o (destroy_unwanted destroy_session desired rows o)
  unfolding lookup destroy_unwanted
  thin desired [] o dist c r = (refl, c, λ k. refl)
  thin desired ((t, d) ∷ rest) o dist c ((k0, p, is_text, there, named), r) =
      elim (Bool-cases (is_some (lookup t desired))) [
        | inl wanted ↦
            let (errs, c', kept) = thin desired rest o dist.1 c r in
            rw (wanted, destroy_unwanted) (errs, c', λ k. kept k ∙ ground (arith, wanted, dist.0))
        | inr gone ↦
            let (done, cut, same) = destroyed_one k0 p d o.manager c there named in
            let m' = (destroy_session d o.manager).0 in
            let o1 : Outcome = record { manager = m'; count = o.count + 1; errs = o.errs } in
            let next : tally_call o (destroy_session d o.manager) ≡ o1 =
              ap (λ x. tally_call o (m', x)) done in
            let absent : lookup (text k0) rest ≡ none = ap (λ x. lookup x rest) is_text ∙ dist.0 in
            let (errs, c', kept) =
              thin desired rest o1 dist.1 (destroy-IsConsistent d o.manager c)
                (kept_apart rest k0 o.manager m' absent cut same r) in
            rw (gone, next, destroy_unwanted)
              (
                errs,
                c',
                λ k.
                    kept k
                    ∙ ground (
                      arith,
                      gone,
                      dist.0,
                      cut k,
                      key_eq_iff k0 k,
                      is_text,
                      injective k0 k,
                      ap text,
                    ),
              )
      ]

  -- Each configuration stands under the text of its own key.
  abbrev pub Named : List (ℕ × SessionConfig) → Type 0
  Named [] = Unit
  Named ((t, cfg) ∷ rest) = (t ≡ text (key_of cfg)) × Named rest

  abbrev pub missing : List (ℕ × ℕ) → List (ℕ × SessionConfig) → SessionKey → Bool
  missing rows wanted k = is_some (lookup (text k) wanted) && not (is_some (lookup (text k) rows))

  -- What the loop that creates leaves, if no call failed.
  abbrev pub Filled : List (ℕ × ℕ) → List (ℕ × SessionConfig) → Outcome → Outcome → Type 0
  Filled rows wanted o o' =
      (o.errs ≡ [])
      × ((k : SessionKey)
          → is_some (lookup k o'.manager.sessions_by_peer)
            ≡ (is_some (lookup k o.manager.sessions_by_peer) || missing rows wanted k))
      × ((k : SessionKey) (p : ℕ)
          → lookup k o.manager.sessions_by_peer ≡ some p
          → lookup k o'.manager.sessions_by_peer ≡ some p)

  pub fill :
      (supply : ℕ → Supply) (turn : ℕ) (rows : List (ℕ × ℕ)) (wanted : List (ℕ × SessionConfig))
      (o : Outcome)
      → Named wanted
      → IsConsistent o.manager
      → (create_missing (λ n cfg. create_session (supply n) cfg) turn rows wanted o).errs ≡ []
      → Filled rows wanted o
          (create_missing (λ n cfg. create_session (supply n) cfg) turn rows wanted o)
  unfolding create_missing lookup
  fill supply turn rows [] o n c h = (h, λ k. ground arith, λ k p q. q)
  fill supply turn rows ((t, cfg) ∷ rest) o (is_text, n) c h =
      elim (Bool-cases (is_some (lookup t rows))) [
        | inl there ↦
            let (none_yet, filled, kept) =
              fill supply (turn + 1) rows rest o n c (rw (there, create_missing) at h) in
            rw (there, create_missing) (none_yet, λ k. filled k ∙ ground (arith, there), kept)
        | inr fresh ↦
            let made = create_session (supply turn) cfg o.manager in
            let out = create_session_outcome (supply turn) cfg o.manager made.0 made.1 c refl in
            let c' = create-IsConsistent (supply turn) cfg o.manager c in
            elim (Result-cases made.1) [
              | inr (e, failed) ↦
                  let o1 : Outcome = record {
                    manager = made.0;
                    count = o.count;
                    errs = e ∷ o.errs;
                  } in
                  let next : tally_call o made ≡ o1 = ap (λ x. tally_call o (made.0, x)) failed in
                  let (clash, _, _) =
                    fill supply (turn + 1) rows rest o1 n c'
                      (rw (fresh, next, create_missing) at h) in
                  absurd (cc)
              | inl (p, worked) ↦
                  let o1 : Outcome = record {
                    manager = made.0;
                    count = o.count + 1;
                    errs = o.errs;
                  } in
                  let next : tally_call o made ≡ o1 = ap (λ x. tally_call o (made.0, x)) worked in
                  let (_, _, free, (discr, a)) = out.1 p worked in
                  let (none_yet, filled, kept) =
                    fill supply (turn + 1) rows rest o1 n c'
                      (rw (fresh, next, create_missing) at h) in
                  rw (fresh, next, create_missing)
                    (
                      none_yet,
                      λ k.
                          filled k
                          ∙ ground (
                            arith,
                            fresh,
                            is_text,
                            free,
                            a.by_new_key k,
                            key_eq_iff (key_of cfg) k,
                            injective (key_of cfg) k,
                            ap text,
                          ),
                      λ k q there.
                          kept k q (
                            a.by_new_key k
                            ∙ ground (arith, there, free, key_eq_iff (key_of cfg) k)),
                    )
            ]
      ]
