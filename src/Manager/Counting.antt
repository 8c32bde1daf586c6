-- ===== src/Manager/Counting.antt =====
-- The counter of unsolicited sessions among the calls of the manager (internal/bfd/manager.go and
-- manager_session.go).
use gobfd.Common.{
  ℕ, ◌+◌, ◌≡◌, refl, sym, ap, ◌∙◌, List, [], ◌∷◌, Option, none, some, Bool, true, false, arith, inl,
  inr, Option-cases,
}
use gobfd.Assoc.{
  nat_key, lookup, insert, delete, delete-Distinct, Distinct, lookup-delete, tally, one_if,
  tally-delete, tally_absent, holds_of,
}
use gobfd.Session.{SessionConfig}
use gobfd.Unsolicited.Reserve.{release_lem}
use gobfd.Manager.{Manager, UnsolicitedState, destroy_session, store, release_counter}
use gobfd.Manager.Consistent.{IsConsistent}
use gobfd.Manager.Create.{Adds}
use gobfd.Manager.Kept.{Keeps}
use gobfd.Manager.Demux.{mark_at}

-- How many sessions of the table are marked as unsolicited.
abbrev pub marked : Manager → ℕ
marked m = tally (λ p. (m.heap p).unsolicited) m.sessions

abbrev pub counter_of : Option UnsolicitedState → ℕ
counter_of none = 0
counter_of (some u) = u.session_count

-- The counter is the number of marked sessions.
abbrev pub Counted : Manager → Type 0
Counted m = counter_of m.unsolicited_state ≡ marked m

-- Two tests that agree on all entries count the same.
tally_agree :
    (f g : ℕ → Bool) (l : List (ℕ × ℕ))
    → Distinct l
    → ((d p : ℕ) → lookup d l ≡ some p → f p ≡ g p)
    → tally f l ≡ tally g l
unfolding tally lookup
tally_agree f g [] dist same = refl
tally_agree f g ((d, p) ∷ rest) dist same =
    let here : f p ≡ g p = same d p (ground arith) in
    let later : tally f rest ≡ tally g rest =
      tally_agree f g rest dist.1 (λ e q h. same e q (ground (arith, h, dist.0))) in
    rw (here, later) refl

pub Keeps-Counted : (m t : Manager) → IsConsistent m → Keeps m t → Counted m → Counted t
Keeps-Counted m t c k n =
    ap counter_of k.counter_kept
    ∙ n
    ∙ sym (
        tally_agree (λ p. (t.heap p).unsolicited) (λ p. (m.heap p).unsolicited) m.sessions
          c.distinct (λ d p h. k.marks_kept p))
    ∙ ap (tally (λ p. (t.heap p).unsolicited)) (sym k.tables.sessions_kept)

counter_after :
    (mark : Bool) (o : Option UnsolicitedState) (r : ℕ)
    → r + one_if mark ≡ counter_of o
    → counter_of (release_counter mark o) ≡ r
counter_after true none r e = absurd (omega arith)
counter_after true (some u) r e = omega (arith, release_lem u.session_count)
counter_after false o r e = omega arith

pub destroy-Counted :
    (d : ℕ) (m : Manager) → IsConsistent m → Counted m → Counted (destroy_session d m).0
unfolding destroy_session
destroy-Counted d m c n = elim (Option-cases (lookup d m.sessions)) [
  | inl absent ↦ rw (absent, destroy_session) n
  | inr (p, found) ↦
      let f = λ (q : ℕ). (m.heap q).unsolicited in
      let split : tally f (delete d m.sessions) + one_if (holds_of f (lookup d m.sessions))
          ≡ tally f m.sessions =
        tally-delete f d m.sessions c.distinct in
      let at_p : one_if (holds_of f (lookup d m.sessions)) ≡ one_if (f p) =
        ap (λ o. one_if (holds_of f o)) found in
      let cancelled =
        λ (q : ℕ). (store p (record (m.heap p) { cancelled = true }) m.heap q).unsolicited in
      rw (found, destroy_session)
        (counter_after (f p) m.unsolicited_state (tally f (delete d m.sessions))
            (omega (arith, at_p, split, n))
          ∙ tally_agree f cancelled (delete d m.sessions) (delete-Distinct d m.sessions c.distinct)
              (λ e q h. ground arith))
]

-- A new session is not marked.
pub Adds-marked :
    (cfg : SessionConfig) (m m' : Manager) (discr : ℕ)
    → IsConsistent m
    → Adds cfg m m' discr
    → marked m' ≡ marked m
unfolding insert tally
Adds-marked cfg m m' discr c a =
    let f = λ (q : ℕ). (m.heap q).unsolicited in
    let f' = λ (q : ℕ). (m'.heap q).unsolicited in
    let absent : lookup discr m.sessions ≡ none = ground (arith, a.fresh_discr) in
    let kept : tally f' m.sessions ≡ tally f m.sessions =
      tally_agree f' f m.sessions c.distinct
        (λ d p h. ap (λ e. e.unsolicited) (a.others p (c.by_discr d p h).2)) in
    ap (tally f') a.new_row
    ∙ ground (arith, a.not_unsolicited)
    ∙ tally_absent f' discr m.sessions absent
    ∙ kept

pub Adds-Counted :
    (cfg : SessionConfig) (m m' : Manager) (discr : ℕ)
    → IsConsistent m
    → Adds cfg m m' discr
    → Counted m
    → Counted m'
Adds-Counted cfg m m' discr c a n =
    ap counter_of a.same_counter ∙ n ∙ sym (Adds-marked cfg m m' discr c a)

-- The mark on an entry that had none.
pub mark-marked :
    (d p : ℕ) (m : Manager)
    → IsConsistent m
    → lookup d m.sessions ≡ some p
    → (m.heap p).unsolicited ≡ false
    → marked (mark_at (some p) m) ≡ marked m + 1
mark-marked d p m c found clear =
    let f = λ (q : ℕ). (m.heap q).unsolicited in
    let f' = λ (q : ℕ). ((mark_at (some p) m).heap q).unsolicited in
    let before = tally-delete f d m.sessions c.distinct in
    let after = tally-delete f' d m.sessions c.distinct in
    let was : one_if (holds_of f (lookup d m.sessions)) ≡ 0 =
      ap (λ o. one_if (holds_of f o)) found ∙ ap one_if clear in
    let is : one_if (holds_of f' (lookup d m.sessions)) ≡ 1 =
      ap (λ o. one_if (holds_of f' o)) found ∙ ground arith in
    let others : tally f (delete d m.sessions) ≡ tally f' (delete d m.sessions) =
      tally_agree f f' (delete d m.sessions) (delete-Distinct d m.sessions c.distinct) (λ e q h.
        ground (arith, lookup-delete d e m.sessions, c.by_discr e q, c.by_discr d p found)) in
    omega (arith, before, after, was, is, others)
