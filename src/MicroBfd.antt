-- ===== src/MicroBfd.antt =====
-- Micro-BFD groups, one session for each link of an aggregate: internal/bfd/micro.go. The map of
-- members is an association list, and interface names are numbers; the mutex makes each operation
-- one step.
pub mod Members
pub mod Aggregate
use gobfd.Common.{
  ℕ, ◌+◌, ◌-◌, List, [], ◌∷◌, Option, none, some, Bool, true, false, not, ◌||◌, ◌&&◌, ltb, leb,
  ◌==◌, if◌then◌else◌, length, Result, ok, err, ◌>>=◌, ◌>>◌, guard,
}
use gobfd.Packet.{State, down, up}
use gobfd.Fsm.{state_eq}

pub data MicroError : Type 0 where
  no_members duplicate_member invalid_min_active member_not_found member_exists : MicroError

pub record MicroBfdConfig : Type 0 where
  pub cfg_lag_interface : ℕ
  pub cfg_member_links : List ℕ
  -- An `int`; 0 stands for every value that is not positive, which the check below refuses.
  pub cfg_min_active_links : ℕ

pub record MemberEntry : Type 0 where
  pub state : State
  pub local_discr : ℕ

pub record MicroBfdGroup : Type 0 where
  pub lag_interface : ℕ
  pub members : List (ℕ × MemberEntry)
  pub min_active : ℕ
  pub aggregate_up : Bool
  pub up_count : ℕ

abbrev pub new_entry : MemberEntry
new_entry = record { state = down; local_discr = 0 }

abbrev pub is_member : ℕ → List (ℕ × MemberEntry) → Bool
is_member name [] = false
is_member name ((k, e) ∷ rest) = k == name || is_member name rest

unfoldable pub find_member : ℕ → List (ℕ × MemberEntry) → Option MemberEntry
find_member name [] = none
find_member name ((k, e) ∷ rest) = if k == name then some e else find_member name rest

-- The entry is changed through its pointer.
unfoldable pub set_member : ℕ → MemberEntry → List (ℕ × MemberEntry) → List (ℕ × MemberEntry)
set_member name entry [] = []
set_member name entry ((k, e) ∷ rest) =
    if k == name then (k, entry) ∷ rest else (k, e) ∷ set_member name entry rest

unfoldable pub delete_member : ℕ → List (ℕ × MemberEntry) → List (ℕ × MemberEntry)
delete_member name [] = []
delete_member name ((k, e) ∷ rest) = if k == name then rest else (k, e) ∷ delete_member name rest

abbrev pub one_of : ℕ → List ℕ → Bool
one_of name [] = false
one_of name (x ∷ xs) = x == name || one_of name xs

-- The loop over the links, with those already seen.
unfoldable pub no_duplicates : List ℕ → List ℕ → Bool
no_duplicates seen [] = true
no_duplicates seen (x ∷ xs) = not (one_of x seen) && no_duplicates (x ∷ seen) xs

unfoldable pub validate_micro_bfd_config : MicroBfdConfig → Result MicroError (Unit {0})
unfolding no_duplicates
validate_micro_bfd_config cfg = do
  guard (not (length cfg.cfg_member_links == 0)) no_members
  guard (no_duplicates [] cfg.cfg_member_links) duplicate_member
  guard
      (not (
        ltb cfg.cfg_min_active_links 1
        || ltb (length cfg.cfg_member_links) cfg.cfg_min_active_links))
      invalid_min_active

abbrev pub new_members : List ℕ → List (ℕ × MemberEntry)
new_members [] = []
new_members (x ∷ xs) = (x, new_entry) ∷ new_members xs

unfoldable pub new_micro_bfd_group : MicroBfdConfig → Result MicroError MicroBfdGroup
new_micro_bfd_group cfg = do
  validate_micro_bfd_config cfg
  ok (record {
    lag_interface = cfg.cfg_lag_interface;
    members = new_members cfg.cfg_member_links;
    min_active = cfg.cfg_min_active_links;
    aggregate_up = false;
    up_count = 0;
  })

unfoldable pub add_member : ℕ → MicroBfdGroup → MicroBfdGroup × Result MicroError (Unit {0})
add_member name g =
    if is_member name g.members
    then (g, err member_exists)
    else (record g { members = (name, new_entry) ∷ g.members }, ok tt)

abbrev pub is_up : State → Bool
is_up st = state_eq st up

-- The aggregate after the count of links in Up has changed, and whether it differs.
abbrev pub refresh : MicroBfdGroup → MicroBfdGroup × Bool
refresh g =
    let now = leb g.min_active g.up_count in
    (
      record g { aggregate_up = now },
      not ((g.aggregate_up && now) || (not g.aggregate_up && not now)),
    )

abbrev pub remove_found :
    Option MemberEntry → ℕ → MicroBfdGroup → MicroBfdGroup × Result MicroError Bool
remove_found none name g = (g, err member_not_found)
remove_found (some entry) name g =
    let (g', changed) = refresh (record g {
      members = delete_member name g.members;
      up_count = if is_up entry.state then g.up_count - 1 else g.up_count;
    }) in
    (g', ok changed)

unfoldable pub remove_member : ℕ → MicroBfdGroup → MicroBfdGroup × Result MicroError Bool
unfolding find_member delete_member
remove_member name g = remove_found (find_member name g.members) name g

abbrev pub count_after : State → State → ℕ → ℕ
count_after old new count =
    if is_up old && not (is_up new)
    then count - 1
    else if not (is_up old) && is_up new
    then count + 1
    else count

abbrev pub update_found :
    Option MemberEntry → ℕ → State → ℕ → MicroBfdGroup → MicroBfdGroup × Result MicroError Bool
update_found none name new discr g = (g, err member_not_found)
update_found (some entry) name new discr g =
    if state_eq entry.state new
    then (g, ok false)
    else (let (g', changed) = refresh (record g {
      members = set_member name (record { state = new; local_discr = discr }) g.members;
      up_count = count_after entry.state new g.up_count;
    }) in
        (g', ok changed))

unfoldable pub update_member_state :
    ℕ → State → ℕ → MicroBfdGroup → MicroBfdGroup × Result MicroError Bool
unfolding find_member set_member
update_member_state name new discr g = update_found (find_member name g.members) name new discr g
