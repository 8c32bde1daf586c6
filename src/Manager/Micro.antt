-- ===== src/Manager/Micro.antt =====
-- The micro-BFD groups of the manager: internal/bfd/manager_micro.go. The map of groups is walked
-- in the order of the list.
use gobfd.Common.{ℕ, List, [], ◌∷◌, Option, none, some, Bool, Result, ok, err}
use gobfd.Assoc.{nat_key, lookup, insert, delete}
use gobfd.Session.{StateChange}
use gobfd.MicroBfd.{
  MicroBfdConfig, MicroBfdGroup, MicroError, new_micro_bfd_group, update_member_state,
}
use gobfd.Manager.{
  Manager, ManagerError, MicroBfdMemberEvent, micro_group_exists, micro_group_not_found,
  micro_failed,
}

unfoldable pub create_micro_bfd_group :
    MicroBfdConfig → Manager → Manager × Result ManagerError (Unit {0})
create_micro_bfd_group cfg m = elim (lookup cfg.cfg_lag_interface m.micro_groups) [
  | some group ↦ (m, err micro_group_exists)
  | none ↦ elim (new_micro_bfd_group cfg) [
    | err failure ↦ (m, err (micro_failed failure))
    | ok group ↦
        (record m { micro_groups = insert cfg.cfg_lag_interface group m.micro_groups }, ok tt)
  ]
]

unfoldable pub destroy_micro_bfd_group : ℕ → Manager → Manager × Result ManagerError (Unit {0})
destroy_micro_bfd_group lag m = elim (lookup lag m.micro_groups) [
  | none ↦ (m, err micro_group_not_found)
  | some group ↦ (record m { micro_groups = delete lag m.micro_groups }, ok tt)
]

abbrev pub lookup_micro_bfd_group : ℕ → Manager → Option MicroBfdGroup
lookup_micro_bfd_group lag m = lookup lag m.micro_groups

abbrev pub member_event : MicroBfdGroup → StateChange → Bool → MicroBfdMemberEvent
member_event group sc changed = record {
  event_lag = group.lag_interface;
  event_member = sc.change_interface;
  event_old = sc.change_old;
  event_new = sc.change_new;
  event_discr = sc.change_discr;
  event_aggregate_up = group.aggregate_up;
  event_aggregate_changed = changed;
}

-- The event goes to the actuator, if one is set; its error is logged.
unfoldable pub handle_micro_bfd_actuator :
    MicroBfdGroup
    → StateChange
    → Bool
    → Option (List MicroBfdMemberEvent)
    → Option (List MicroBfdMemberEvent)
handle_micro_bfd_actuator group sc changed none = none
handle_micro_bfd_actuator group sc changed (some events) =
    some (member_event group sc changed ∷ events)

abbrev Groups : Type 0
Groups = List (ℕ × MicroBfdGroup) × Option (List MicroBfdMemberEvent)

-- A group that knows the member ends the walk; its entry is changed through the pointer. A group
-- that does not is as it was, and the walk goes on.
unfoldable pub dispatch_to :
    ℕ
    → List (ℕ × MicroBfdGroup)
    → StateChange
    → Option (List MicroBfdMemberEvent)
    → Groups
    → MicroBfdGroup × Result MicroError Bool
    → Groups
dispatch_to lag rest sc events later (group, ok changed) =
    ((lag, group) ∷ rest, handle_micro_bfd_actuator group sc changed events)
dispatch_to lag rest sc events (rest', events') (group, err failure) =
    ((lag, group) ∷ rest', events')

unfoldable pub dispatch_groups :
    StateChange → List (ℕ × MicroBfdGroup) → Option (List MicroBfdMemberEvent) → Groups
unfolding dispatch_to
dispatch_groups sc [] events = ([], events)
dispatch_groups sc ((lag, group) ∷ rest) events =
    dispatch_to lag rest sc events (dispatch_groups sc rest events)
      (update_member_state sc.change_interface sc.change_new sc.change_discr group)

unfoldable pub dispatch_micro_bfd : StateChange → Manager → Manager
unfolding dispatch_groups
dispatch_micro_bfd sc m =
    let (groups, events) = dispatch_groups sc m.micro_groups m.micro_actuator in
    record m { micro_groups = groups; micro_actuator = events }
