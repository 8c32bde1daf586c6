-- ===== src/Fsm.antt =====
-- The finite state machine of a session: internal/bfd/fsm.go.
pub mod Rules
use gobfd.Common.{
  ℕ, zero, suc, ◌+◌, List, [], ◌∷◌, Bool, true, false, not, ◌||◌, ltb, leb, ◌==◌, if◌then◌else◌,
  get_or, set, replicate,
}
use gobfd.Packet.{State, admin_down, down, init, up, reserved, state_code}

-- An `Event` is a uint8: `other_event n` is the value n + 7.
pub data Event : Type 0 where
  recv_admin_down recv_down recv_init recv_up timer_expired event_admin_down event_admin_up : Event
  other_event : ℕ → Event

abbrev pub event_code : Event → ℕ
event_code recv_admin_down = 0
event_code recv_down = 1
event_code recv_init = 2
event_code recv_up = 3
event_code timer_expired = 4
event_code event_admin_down = 5
event_code event_admin_up = 6
event_code (other_event n) = n + 7

-- `unknown_action` stands for the values of the uint8 with no name.
pub data Action : Type 0 where
  send_control notify_up notify_down set_diag_time_expired set_diag_neighbor_down : Action
  set_diag_admin_down unknown_action : Action

pub record StateEvent : Type 0 where
  pub key_state : State
  pub key_event : Event

pub record Transition : Type 0 where
  pub target : State
  pub side_effects : List Action

pub record FsmResult : Type 0 where
  pub old_state : State
  pub new_state : State
  pub actions : List Action
  pub changed : Bool

pub record FsmEntry : Type 0 where
  pub entry_state : State
  pub entry_actions : List Action
  pub valid : Bool

abbrev pub num_states : ℕ
num_states = 4

abbrev pub num_events : ℕ
num_events = 7

abbrev row : State → Event → State → List Action → StateEvent × Transition
row s e t acts =
    (record { key_state = s; key_event = e }, record { target = t; side_effects = acts })

-- The map, listed in the order of the source; a Go map has no order of its own.
unfoldable pub fsm_table : List (StateEvent × Transition)
fsm_table =
    row admin_down event_admin_up down []
    ∷ row down recv_down init (send_control ∷ [])
    ∷ row down recv_init up (send_control ∷ notify_up ∷ [])
    ∷ row down event_admin_down admin_down (set_diag_admin_down ∷ [])
    ∷ row init recv_admin_down down (set_diag_neighbor_down ∷ notify_down ∷ [])
    ∷ row init recv_down init []
    ∷ row init recv_init up (send_control ∷ notify_up ∷ [])
    ∷ row init recv_up up (send_control ∷ notify_up ∷ [])
    ∷ row init timer_expired down (set_diag_time_expired ∷ notify_down ∷ [])
    ∷ row init event_admin_down admin_down (set_diag_admin_down ∷ [])
    ∷ row up recv_admin_down down (set_diag_neighbor_down ∷ notify_down ∷ [])
    ∷ row up recv_down down (set_diag_neighbor_down ∷ notify_down ∷ [])
    ∷ row up recv_init up []
    ∷ row up recv_up up []
    ∷ row up timer_expired down (set_diag_time_expired ∷ notify_down ∷ [])
    ∷ row up event_admin_down admin_down (set_diag_admin_down ∷ [])
    ∷ []

-- The zero value of an entry; the State with code 0 is `admin_down`.
abbrev pub empty_entry : FsmEntry
empty_entry = record { entry_state = admin_down; entry_actions = []; valid = false }

abbrev pub FsmArray : Type 0
FsmArray = List (List FsmEntry)

abbrev pub empty_array : FsmArray
empty_array = replicate num_states (replicate num_events empty_entry)

-- `fsmArray[key.state][key.event] = fsmEntry{...}`.
abbrev pub store_entry : FsmArray → StateEvent × Transition → FsmArray
store_entry array (key, tr) = set array (state_code key.key_state) (
    set (get_or array (state_code key.key_state) []) (event_code key.key_event)
      (record { entry_state = tr.target; entry_actions = tr.side_effects; valid = true }))

-- The loop of `init`, over the map's entries in some order.
unfoldable pub fill : FsmArray → List (StateEvent × Transition) → FsmArray
fill array [] = array
fill array (entry ∷ rest) = fill (store_entry array entry) rest

unfoldable pub fsm_array : FsmArray
unfolding fill fsm_table
fsm_array = fill empty_array fsm_table

abbrev pub unchanged : State → FsmResult
unchanged s = record { old_state = s; new_state = s; actions = []; changed = false }

abbrev pub state_eq : State → State → Bool
state_eq s t = state_code s == state_code t

-- `ApplyEvent` on a given array.
unfoldable pub apply_event_in : FsmArray → State → Event → FsmResult
apply_event_in array s e =
    if leb num_states (state_code s) || leb num_events (event_code e)
    then unchanged s
    else (let entry = get_or (get_or array (state_code s) []) (event_code e) empty_entry in
        if not entry.valid then unchanged s else record {
          old_state = s;
          new_state = entry.entry_state;
          actions = entry.entry_actions;
          changed = not (state_eq s entry.entry_state);
        })

unfoldable pub apply_event : State → Event → FsmResult
unfolding apply_event_in fsm_array
apply_event s e = apply_event_in fsm_array s e

-- The last clause is `default`.
unfoldable pub recv_state_to_event : State → Event
recv_state_to_event admin_down = recv_admin_down
recv_state_to_event down = recv_down
recv_state_to_event init = recv_init
recv_state_to_event up = recv_up
recv_state_to_event (reserved n) = recv_down
