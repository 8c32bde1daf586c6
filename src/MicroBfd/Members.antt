-- ===== src/MicroBfd/Members.antt =====
-- Counting the links of a micro-BFD group (internal/bfd/micro.go) that are in Up.
use gobfd.Common.{
  ℕ, ◌+◌, ◌≤◌, ◌≡◌, refl, ◌∙◌, arith, List, [], ◌∷◌, some, false, leb, ◌==◌, inl, inr,
  if◌then◌else◌, Bool-cases,
}
use gobfd.MicroBfd.{
  MemberEntry, MicroBfdGroup, is_member, find_member, set_member, delete_member, is_up,
}

-- How many links are in Up.
abbrev pub ups : List (ℕ × MemberEntry) → ℕ
ups [] = 0
ups ((k, e) ∷ rest) = (if is_up e.state then 1 else 0) + ups rest

-- No link is listed twice.
abbrev pub Distinct : List (ℕ × MemberEntry) → Type 0
Distinct [] = Unit
Distinct ((k, e) ∷ rest) = (is_member k rest ≡ false) × Distinct rest

pub record IsConsistent (g : MicroBfdGroup) : Type 0 where
  pub counted : g.up_count ≡ ups g.members
  pub aggregated : g.aggregate_up ≡ leb g.min_active g.up_count
  pub distinct : Distinct g.members
  pub some_needed : 1 ≤ g.min_active

pub ups-set :
    (name : ℕ) (new : MemberEntry) (l : List (ℕ × MemberEntry)) (old : MemberEntry)
    → find_member name l ≡ some old
    → ups (set_member name new l) + (if is_up old.state then 1 else 0)
      ≡ ups l + (if is_up new.state then 1 else 0)
unfolding find_member set_member
ups-set name new [] old h = cc
ups-set name new ((k, e) ∷ l) old h = ground (arith, h, ups-set name new l old)

pub ups-delete :
    (name : ℕ) (l : List (ℕ × MemberEntry)) (old : MemberEntry)
    → find_member name l ≡ some old
    → ups (delete_member name l) + (if is_up old.state then 1 else 0) ≡ ups l
unfolding find_member delete_member
ups-delete name [] old h = cc
ups-delete name ((k, e) ∷ l) old h = ground (arith, h, ups-delete name l old)

pub is_member-set :
    (x name : ℕ) (new : MemberEntry) (l : List (ℕ × MemberEntry))
    → is_member x (set_member name new l) ≡ is_member x l
unfolding set_member
is_member-set x name new [] = refl
is_member-set x name new ((k, e) ∷ l) = ground (arith, is_member-set x name new l)

pub set-Distinct :
    (name : ℕ) (new : MemberEntry) (l : List (ℕ × MemberEntry))
    → Distinct l
    → Distinct (set_member name new l)
unfolding set_member
set-Distinct name new [] d = tt
set-Distinct name new ((k, e) ∷ l) (f, d) = elim (Bool-cases (k == name)) [
  | inl same ↦ rw same (f, d)
  | inr other ↦ rw other (is_member-set k name new l ∙ f, set-Distinct name new l d)
]

pub is_member-delete :
    (x name : ℕ) (l : List (ℕ × MemberEntry))
    → is_member x l ≡ false
    → is_member x (delete_member name l) ≡ false
unfolding delete_member
is_member-delete x name [] h = refl
is_member-delete x name ((k, e) ∷ l) h = ground (arith, h, is_member-delete x name l)

pub delete-Distinct :
    (name : ℕ) (l : List (ℕ × MemberEntry)) → Distinct l → Distinct (delete_member name l)
unfolding delete_member
delete-Distinct name [] d = tt
delete-Distinct name ((k, e) ∷ l) (f, d) = elim (Bool-cases (k == name)) [
  | inl same ↦ rw same d
  | inr other ↦ rw other (is_member-delete k name l f, delete-Distinct name l d)
]
