-- ===== src/MicroBfd/Aggregate.antt =====
-- The aggregate state of a micro-BFD group (internal/bfd/micro.go) and the states of its links.
use gobfd.Common.{
  ℕ, ◌≡◌, ◌≢◌, ◌↔◌, refl, sym, arith, List, [], ◌∷◌, Option, none, some, Bool, true, false, ◌==◌,
  inl, inr, Result, ok, err, Bool-cases, ==_iff, >>=-eq-ok, ok-injective,
}
use mathlib.Core.Path.{subst}
use gobfd.Packet.{State}
use gobfd.Fsm.{state_eq}
use gobfd.MicroBfd.{
  MicroError, MicroBfdConfig, MemberEntry, MicroBfdGroup, is_member, find_member,
  validate_micro_bfd_config, new_members, new_micro_bfd_group, add_member, remove_found,
  remove_member, update_found, update_member_state, one_of, no_duplicates,
}
use gobfd.MicroBfd.Members.{
  ups, Distinct, IsConsistent, ups-set, ups-delete, set-Distinct, delete-Distinct,
}

-- What an operation returns says whether the aggregate changed; an error changes nothing.
abbrev pub Reports : MicroBfdGroup → MicroBfdGroup × Result MicroError Bool → Type 0
Reports g (g', ok changed) = (changed ≡ true) ↔ (g'.aggregate_up ≢ g.aggregate_up)
Reports g (g', err e) = g' ≡ g

updated :
    (o : Option MemberEntry) (name : ℕ) (new : State) (discr : ℕ) (g : MicroBfdGroup)
    → find_member name g.members ≡ o
    → IsConsistent g
    → IsConsistent (update_found o name new discr g).0 × Reports g (update_found o name new discr g)
updated none name new discr g e c = (c, refl)
updated (some old) name new discr g e c =
    let entry : MemberEntry = record { state = new; local_discr = discr } in
    let count = ups-set name entry g.members old e in
    let apart = set-Distinct name entry g.members c.distinct in
    elim (Bool-cases (state_eq old.state new)) [
      | inl same ↦ rw same (c, ground arith)
      | inr other ↦ rw other (
        record {
          counted = ground (arith, count, c.counted);
          aggregated = refl;
          distinct = apart;
          some_needed = c.some_needed;
        },
        ground arith,
      )
    ]

removed :
    (o : Option MemberEntry) (name : ℕ) (g : MicroBfdGroup)
    → find_member name g.members ≡ o
    → IsConsistent g
    → IsConsistent (remove_found o name g).0 × Reports g (remove_found o name g)
removed none name g e c = (c, refl)
removed (some old) name g e c =
    let count = ups-delete name g.members old e in
    let apart = delete-Distinct name g.members c.distinct in
    (
      record {
        counted = ground (arith, count, c.counted);
        aggregated = refl;
        distinct = apart;
        some_needed = c.some_needed;
      },
      ground arith,
    )

-- In a consistent group, whose count is the number of links in Up and whose aggregate is up exactly
-- if that number reaches the minimum, a change of a link's state leaves the group consistent; the
-- call reports a change exactly if the aggregate differs, and an error leaves the group as it was.
pub update_member_state-IsConsistent :
    (name : ℕ) (new : State) (discr : ℕ) (g : MicroBfdGroup)
    → IsConsistent g
    → IsConsistent (update_member_state name new discr g).0
      × Reports g (update_member_state name new discr g)
unfolding update_member_state
update_member_state-IsConsistent name new discr g c =
    updated (find_member name g.members) name new discr g refl c

-- The removal of a link leaves a consistent group consistent; the call reports a change exactly if
-- the aggregate differs, and an error leaves the group as it was.
pub remove_member-IsConsistent :
    (name : ℕ) (g : MicroBfdGroup)
    → IsConsistent g
    → IsConsistent (remove_member name g).0 × Reports g (remove_member name g)
unfolding remove_member
remove_member-IsConsistent name g c = removed (find_member name g.members) name g refl c

add-IsConsistent :
    (name : ℕ) (g : MicroBfdGroup) → IsConsistent g → IsConsistent (add_member name g).0
unfolding add_member
add-IsConsistent name g c = elim (Bool-cases (is_member name g.members)) [
  | inl e ↦ rw e c
  | inr e ↦ rw e (record {
    counted = ground (arith, c.counted);
    aggregated = c.aggregated;
    distinct = (e, c.distinct);
    some_needed = c.some_needed;
  })
]

ups-new : (l : List ℕ) → ups (new_members l) ≡ 0
ups-new [] = refl
ups-new (x ∷ l) = omega (arith, ups-new l)

unseen :
    (seen l : List ℕ) (x : ℕ)
    → no_duplicates seen l ≡ true
    → one_of x seen ≡ true
    → is_member x (new_members l) ≡ false
unfolding no_duplicates
unseen seen [] x h m = refl
unseen seen (y ∷ l) x h m =
    let rest : no_duplicates (y ∷ seen) l ≡ true = ground (arith, h) in
    let later = unseen (y ∷ seen) l x rest (ground (arith, m)) in
    elim (Bool-cases (y == x)) [
      | inl same ↦
          let seen_y : one_of y seen ≡ true =
            subst (λ z. one_of z seen ≡ true) (sym ((==_iff y x).0 same)) m in
          absurd (ground (arith, h, seen_y))
      | inr other ↦ ground (arith, other, later)
    ]

new_members-Distinct : (seen l : List ℕ) → no_duplicates seen l ≡ true → Distinct (new_members l)
unfolding no_duplicates
new_members-Distinct seen [] h = tt
new_members-Distinct seen (x ∷ l) h =
    let rest : no_duplicates (x ∷ seen) l ≡ true = ground (arith, h) in
    (unseen (x ∷ seen) l x rest (ground arith), new_members-Distinct (x ∷ seen) l rest)

-- A call of an operation of a group.
pub data Call : Type 0 where
  add remove : ℕ → Call
  update : ℕ → State → ℕ → Call

unfoldable pub call : Call → MicroBfdGroup → MicroBfdGroup
call (add name) g = (add_member name g).0
call (remove name) g = (remove_member name g).0
call (update name new discr) g = (update_member_state name new discr g).0

unfoldable pub calls : List Call → MicroBfdGroup → MicroBfdGroup
calls [] g = g
calls (c ∷ rest) g = calls rest (call c g)

calls_keep : (l : List Call) (g : MicroBfdGroup) → IsConsistent g → IsConsistent (calls l g)
unfolding calls call
calls_keep [] g c = c
calls_keep (add name ∷ l) g c = calls_keep l _ (add-IsConsistent name g c)
calls_keep (remove name ∷ l) g c = calls_keep l _ (remove_member-IsConsistent name g c).0
calls_keep (update name new discr ∷ l) g c =
    calls_keep l _ (update_member_state-IsConsistent name new discr g c).0

-- A group that NewMicroBFDGroup makes stays consistent under every sequence of additions, removals
-- and state changes: the aggregate is up exactly if at least the minimum of its links are in Up.
pub calls-IsConsistent :
    (cfg : MicroBfdConfig) (g : MicroBfdGroup) (l : List Call)
    → new_micro_bfd_group cfg ≡ ok g
    → IsConsistent (calls l g)
unfolding new_micro_bfd_group validate_micro_bfd_config
calls-IsConsistent cfg g l h =
    let (u, valid_, same) = >>=-eq-ok (validate_micro_bfd_config cfg) _ h in
    calls_keep l g (
      subst IsConsistent (ok-injective same) (record {
        counted = sym (ups-new cfg.cfg_member_links);
        aggregated = ground (arith, valid_);
        distinct = new_members-Distinct [] cfg.cfg_member_links (ground (arith, valid_));
        some_needed = ground (arith, valid_);
      }))
