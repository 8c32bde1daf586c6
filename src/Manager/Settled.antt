-- ===== src/Manager/Settled.antt =====
-- ReconcileSessions (internal/bfd/manager_session.go) from end to end.
use gobfd.Common.{
  ℕ, ◌≡◌, refl, ap, ◌∙◌, List, [], ◌∷◌, some, true, ◌==◌, ◌||◌, arith, inl, inr, Bool-cases,
}
use gobfd.Assoc.{nat_key, lookup, insert, delete, is_some, Distinct, lookup-insert, insert-Distinct}
use gobfd.Session.{SessionConfig}
use gobfd.Manager.{SessionKey, session_key, key_eq_iff, key_of, Manager, Supply, destroy_session}
use gobfd.Manager.Consistent.{IsConsistent, discr_at}
use gobfd.Manager.Reconcile.{
  ReconcileConfig, desired_keys, key_set, session_key_set, destroy_unwanted, begun, reconcile,
  reconcile_sessions,
}
use gobfd.Manager.Reload.{Rows, Named, thin, fill}

module _ (text : SessionKey → ℕ) (injective : (k j : SessionKey) → text k ≡ text j → k ≡ j) where
  Rows-delete :
      (t : ℕ) (rows : List (ℕ × ℕ)) (m : Manager)
      → Rows text injective rows m
      → Rows text injective (delete t rows) m
  unfolding delete
  Rows-delete t [] m r = tt
  Rows-delete t ((j, d) ∷ rest) m (one, r) = elim (Bool-cases (j == t)) [
    | inl same ↦ rw (same, delete) (Rows-delete t rest m r)
    | inr other ↦ rw (other, delete) (one, Rows-delete t rest m r)
  ]

  -- What the walk over the table of peers collects, behind what it began with.
  collected :
      (l : List (SessionKey × ℕ)) (rows : List (ℕ × ℕ)) (m : Manager)
      → Distinct l
      → Distinct rows
      → Rows text injective rows m
      → ((k : SessionKey) (p : ℕ) → lookup k l ≡ some p → lookup k m.sessions_by_peer ≡ some p)
      → Distinct (key_set text m.heap l rows)
        × Rows text injective (key_set text m.heap l rows) m
        × ((k : SessionKey)
            → is_some (lookup (text k) (key_set text m.heap l rows))
              ≡ (is_some (lookup k l) || is_some (lookup (text k) rows)))
  unfolding key_set lookup insert
  collected [] rows m d e r there = (e, r, λ k. refl)
  collected ((key, p) ∷ rest) rows m d e r there =
      let discr = discr_at m p in
      let (e', r', found) =
        collected rest (insert (text key) discr rows) m d.1
          (insert-Distinct (text key) discr rows e)
          (
            (key, p, refl, there key p (ground (arith, key_eq_iff key key)), refl),
            Rows-delete (text key) rows m r,
          )
          (λ k q h. there k q (ground (arith, h, d.0, key_eq_iff key k))) in
      (
        e',
        r',
        λ k.
            found k
            ∙ ground (
              arith,
              lookup-insert (text key) (text k) discr rows,
              key_eq_iff key k,
              injective key k,
              ap text,
              d.0,
            ),
      )

  Named-delete :
      (t : ℕ) (l : List (ℕ × SessionConfig))
      → Named text injective l
      → Named text injective (delete t l)
  unfolding delete
  Named-delete t [] n = tt
  Named-delete t ((j, cfg) ∷ rest) (one, n) = elim (Bool-cases (j == t)) [
    | inl same ↦ rw (same, delete) (Named-delete t rest n)
    | inr other ↦ rw (other, delete) (one, Named-delete t rest n)
  ]

  -- Each desired configuration comes with the text of its own key.
  abbrev pub AllNamed : List (ReconcileConfig SessionConfig) → Type 0
  AllNamed [] = Unit
  AllNamed (rc ∷ rest) = (rc.rc_key ≡ text (key_of rc.rc_config)) × AllNamed rest

  wanted-Named :
      (desired : List (ReconcileConfig SessionConfig)) (l : List (ℕ × SessionConfig))
      → AllNamed desired
      → Named text injective l
      → Named text injective (desired_keys desired l)
  unfolding desired_keys insert
  wanted-Named [] l a n = n
  wanted-Named (rc ∷ rest) l (one, a) n = wanted-Named rest _ a (one, Named-delete rc.rc_key l n)

  -- A reload that reports no error leaves exactly the desired sessions: a key has a session
  -- afterwards if and only if its text is among the desired ones, and a session that was there and
  -- is desired is still the same entry. It is asked that different keys have different texts, that
  -- each desired configuration comes with the text of its own key, and that the manager is
  -- consistent.
  pub reconcile_settles :
      (supply : ℕ → Supply) (desired : List (ReconcileConfig SessionConfig)) (m : Manager)
      → AllNamed desired
      → IsConsistent m
      → (reconcile_sessions text supply desired m).all_errs ≡ []
      → ((k : SessionKey)
          → is_some (lookup k (reconcile_sessions text supply desired m).after.sessions_by_peer)
            ≡ is_some (lookup (text k) (desired_keys desired [])))
        × ((k : SessionKey) (p : ℕ)
            → lookup k m.sessions_by_peer ≡ some p
            → is_some (lookup (text k) (desired_keys desired [])) ≡ true
            → lookup k (reconcile_sessions text supply desired m).after.sessions_by_peer ≡ some p)
  unfolding reconcile_sessions reconcile session_key_set lookup
  reconcile_settles supply desired m a c h =
      let wanted = desired_keys desired [] in
      let rows = session_key_set text m in
      let (e, r, found) = collected m.sessions_by_peer [] m c.distinct_peers tt tt (λ k p q. q) in
      let o = destroy_unwanted destroy_session wanted rows (begun m) in
      let (_, c', cut) = thin text injective wanted rows (begun m) e c r in
      let (_, filled, kept) =
        fill text injective supply 0 rows wanted (record o { count = 0 })
          (wanted-Named desired [] a tt) c' h in
      (
        λ k. filled k ∙ ground (arith, found k, cut k),
        λ k p there wants. kept k p (cut k ∙ ground (arith, found k, wants, there)),
      )
