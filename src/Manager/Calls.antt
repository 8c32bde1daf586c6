-- ===== src/Manager/Calls.antt =====
-- The calls of the manager's methods and the turns of its goroutines, in any order.
use gobfd.Common.{ℕ, List, [], ◌∷◌, Option, Bool}
use gobfd.Packet.{ControlPacket}
use gobfd.Session.{SessionConfig, Env}
use gobfd.Echo.{EchoSessionConfig}
use gobfd.MicroBfd.{MicroBfdConfig}
use gobfd.Manager.{SessionKey, Manager, Supply, create_session, destroy_session}
use gobfd.Manager.Demux.{PacketMeta, demux, demux_with_wire, handle_interface_event}
use gobfd.Manager.Dispatch.{
  run_dispatch, fire_cleanup, subscribe_state_changes, unsubscribe, drain_all_sessions, close,
}
use gobfd.Manager.Micro.{create_micro_bfd_group, destroy_micro_bfd_group}
use gobfd.Manager.Echo.{create_echo_session, destroy_echo_session, demux_echo}
use gobfd.Manager.Reconcile.{
  ReconcileConfig, reconcile_sessions, reconcile_echo_sessions, reconcile_micro_bfd_groups,
}
use gobfd.Manager.Serve.{Choice, serve, begin, end}

pub data Call : Type 0 where
  creates : Supply → SessionConfig → Call
  destroys : ℕ → Call
  demuxes : ControlPacket → PacketMeta → Call
  demuxes_wire : Supply → ControlPacket → PacketMeta → List ℕ → Call
  interface_event : ℕ → Bool → Call
  dispatches subscribes drains closes : Call
  cleans_up unsubscribes : ℕ → Call
  creates_echo : (ℕ → Option ℕ) → EchoSessionConfig → Call
  destroys_echo demuxes_echo : ℕ → Call
  creates_group : MicroBfdConfig → Call
  destroys_group : ℕ → Call
  reconciles : (SessionKey → ℕ) → (ℕ → Supply) → List (ReconcileConfig SessionConfig) → Call
  reconciles_echo :
      (SessionKey → ℕ) → (ℕ → ℕ → Option ℕ) → List (ReconcileConfig EchoSessionConfig) → Call
  reconciles_groups : List (ReconcileConfig MicroBfdConfig) → Call
  serves : Env → Choice → ℕ → Call
  begins ends : ℕ → Call

unfoldable pub call : Call → Manager → Manager
call (creates supply cfg) m = (create_session supply cfg m).0
call (destroys d) m = (destroy_session d m).0
call (demuxes pkt meta) m = (demux pkt meta m).0
call (demuxes_wire supply pkt meta wire) m = (demux_with_wire supply pkt meta wire m).0
call (interface_event name is_up) m = (handle_interface_event name is_up m).0
call dispatches m = run_dispatch m
call subscribes m = (subscribe_state_changes m).0
call drains m = drain_all_sessions m
call closes m = close m
call (cleans_up d) m = fire_cleanup d m
call (unsubscribes id) m = unsubscribe id m
call (creates_echo reads cfg) m = (create_echo_session reads cfg m).0
call (destroys_echo d) m = (destroy_echo_session d m).0
call (demuxes_echo d) m = (demux_echo d m).0
call (creates_group cfg) m = (create_micro_bfd_group cfg m).0
call (destroys_group lag) m = (destroy_micro_bfd_group lag m).0
call (reconciles text supply desired) m = (reconcile_sessions text supply desired m).after
call (reconciles_echo text reads desired) m = (reconcile_echo_sessions text reads desired m).after
call (reconciles_groups desired) m = (reconcile_micro_bfd_groups desired m).after
call (serves env choice p) m = serve env choice p m
call (begins p) m = begin p m
call (ends p) m = end p m

unfoldable pub run_calls : List Call → Manager → Manager
run_calls [] m = m
run_calls (c ∷ rest) m = run_calls rest (call c m)
