-- ===== src/Tests/Machine.antt =====
-- The state machine of internal/bfd/fsm.go on concrete states.
use gobfd.Common.{◌≡◌, refl, [], ◌∷◌}
use gobfd.Packet.{down, up}
use gobfd.Fsm.{recv_init, timer_expired, notify_down, set_diag_time_expired, apply_event}

expiry_runs : (apply_event up timer_expired).actions ≡ set_diag_time_expired ∷ notify_down ∷ []
unfolding apply_event
expiry_runs = refl

comes_up : (apply_event down recv_init).new_state ≡ up
unfolding apply_event
comes_up = refl
