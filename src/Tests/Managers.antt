-- ===== src/Tests/Managers.antt =====
-- The session manager and the echo sessions of internal/bfd on concrete values.
use gobfd.Common.{
  ℕ, ◌≡◌, ◌≢◌, ◌⊎◌, refl, arith, List, [], ◌∷◌, none, some, Bool, true, false, ok, err, replicate,
}
use gobfd.Packet.{ControlPacket}
use gobfd.Duration.{pos}
use gobfd.Netip.{is_valid}
use gobfd.Assoc.{nat_key, lookup}
use gobfd.Unsolicited.{
  check_interface_policy, matches_any_prefix, prefix_contains, unsolicited_max_sessions,
}
use gobfd.Echo.{
  EchoSessionConfig, EchoSession, new_echo_session, initial_echo_session, rebuild_cached_packet,
  Event, recv, input, returned, detect_fired, tx_fired, run_loop, validate_echo_config,
}
use gobfd.Echo.Signals.{Shows, watch_all}
use gobfd.Echo.Wire.{IsSound}
use gobfd.Echo.Create.{unheard_of, echo_life}
use gobfd.Manager.{
  session_key, key_of, Manager, ManagerError, UnsolicitedState, demux_no_match, policy_failed,
  no_unsolicited_sender, create_session, new_manager,
}
use gobfd.Manager.Consistent.{IsConsistent}
use gobfd.Manager.Create.{Adds, create_session_outcome}
use gobfd.Manager.Demux.{PacketMeta, meta_key, demux_with_wire}
use gobfd.Manager.Routing.{IsRegistered, IsMeant, Delivered, demux_with_wire_routes}
use gobfd.Manager.Passive.{Opens, demux_takes_peer}
use gobfd.Manager.Leak.{flood, no_sender_leaks}
use gobfd.Manager.Calls.{
  Call, creates, demuxes_wire, dispatches, begins, destroys, closes, call, run_calls,
}
use gobfd.Manager.Invariant.{call-IsConsistent, manager-IsConsistent}
use gobfd.Tests.{
  noon, hello, hello_bytes, peer, us, fast_config, lan_only, blank, counting, plain_manager,
  open_manager, hello_meta, lan_meta,
}

abbrev echo_config : EchoSessionConfig
echo_config = record {
  echo_peer_addr = peer;
  echo_local_addr = us;
  echo_interface = 0;
  echo_tx_interval = pos 100_000_000;
  echo_detect_multiplier = 3;
}

abbrev echo_session : EchoSession
echo_session = rebuild_cached_packet (initial_echo_session echo_config 42 none)

abbrev one_echo : List Event
one_echo =
    input noon (tx_fired 1)
    ∷ recv
    ∷ input noon returned
    ∷ input noon detect_fired
    ∷ input noon (tx_fired 2)
    ∷ []

echo_session_made : new_echo_session echo_config 42 none ≡ ok echo_session
unfolding new_echo_session validate_echo_config
echo_session_made = refl

echo_life_example :
    Shows (watch_all one_echo unheard_of) (run_loop one_echo echo_session)
    × IsSound (run_loop one_echo echo_session)
echo_life_example =
    echo_life echo_config 42 none echo_session one_echo (omega arith) (omega arith)
      echo_session_made

abbrev a_day : List Call
a_day =
    creates counting fast_config
    ∷ begins 0
    ∷ demuxes_wire counting hello hello_meta hello_bytes
    ∷ dispatches
    ∷ destroys 100
    ∷ closes
    ∷ []

manager-IsConsistent_example : IsConsistent (run_calls a_day plain_manager)
manager-IsConsistent_example = manager-IsConsistent (λ p. blank) none false false a_day

pub plain-IsConsistent : IsConsistent plain_manager
unfolding run_calls
plain-IsConsistent = manager-IsConsistent (λ p. blank) none false false []

open-IsConsistent : (has_sender : Bool) → IsConsistent (open_manager has_sender)
unfolding run_calls
open-IsConsistent has_sender = manager-IsConsistent (λ p. blank) (some lan_only) has_sender true []

abbrev one_session : Manager
one_session = (create_session counting fast_config plain_manager).0

create_session_outcome_example :
    ((e : ManagerError)
      → (create_session counting fast_config plain_manager).1 ≡ err e
      → one_session ≡ plain_manager)
    × ((p : ℕ)
        → (create_session counting fast_config plain_manager).1 ≡ ok p
        → (p ≡ plain_manager.next)
          × (is_valid peer ≡ true)
          × (lookup (key_of fast_config) plain_manager.sessions_by_peer ≡ none)
          × ((discr : ℕ) × Adds fast_config plain_manager one_session discr))
create_session_outcome_example =
    create_session_outcome counting fast_config plain_manager one_session
      (create_session counting fast_config plain_manager).1 plain-IsConsistent refl

one-IsConsistent : IsConsistent one_session
unfolding call
one-IsConsistent = call-IsConsistent (creates counting fast_config) plain_manager plain-IsConsistent

demux_with_wire_routes_example :
    ((p : ℕ)
      → IsRegistered one_session p
      → IsMeant hello hello_meta one_session p
      → Delivered hello hello_bytes p one_session
          (demux_with_wire counting hello hello_meta hello_bytes one_session).0
        × ((demux_with_wire counting hello hello_meta hello_bytes one_session).1 ≡ ok tt))
    × (((p : ℕ) → IsRegistered one_session p → IsMeant hello hello_meta one_session p → ⊥)
        → (hello.your_discriminator ≢ 0) ⊎ (one_session.unsolicited_state ≡ none)
        → demux_with_wire counting hello hello_meta hello_bytes one_session
          ≡ (one_session, err demux_no_match))
demux_with_wire_routes_example =
    demux_with_wire_routes counting hello hello_meta hello_bytes one_session one-IsConsistent

abbrev none_open : UnsolicitedState
none_open = record { policy = lan_only; session_count = 0 }

unknown_peer :
    (has_sender : Bool)
    → (lookup (meta_key lan_meta) (open_manager has_sender).sessions_by_peer ≡ none)
      × ((open_manager has_sender).unsolicited_state ≡ some none_open)
      × ((open_manager has_sender).has_unsolicited_sender ≡ has_sender)
unfolding new_manager lookup
unknown_peer has_sender = (refl, refl, refl)

demux_takes_peer_example :
    ((e : ManagerError) × (demux_with_wire counting hello lan_meta hello_bytes (open_manager true)
        ≡ (open_manager true, err e)))
    ⊎ (((demux_with_wire counting hello lan_meta hello_bytes (open_manager true)).1 ≡ ok tt)
        × Opens hello lan_meta hello_bytes none_open
            (open_manager true)
            (demux_with_wire counting hello lan_meta hello_bytes (open_manager true)).0)
demux_takes_peer_example =
    demux_takes_peer counting hello lan_meta hello_bytes none_open (open_manager true)
      (open-IsConsistent true) (unknown_peer true).1 (unknown_peer true).2 (omega arith) refl
      (unknown_peer true).0

let_in : check_interface_policy (some lan_only) lan_meta.src_addr lan_meta.if_name ≡ ok tt
unfolding check_interface_policy matches_any_prefix prefix_contains
let_in = refl

no_sender_leaks_example :
    (flood 10 counting hello lan_meta hello_bytes (open_manager false) ≡ (
      record (open_manager false) {
        unsolicited_state = some (record none_open { session_count = 10 });
      },
      replicate 10 (err no_unsolicited_sender),
    ))
    × ((other : ControlPacket) (from : PacketMeta) (bytes : List ℕ)
        → ◌≡◌ {A = ℕ} 10 10
        → other.your_discriminator ≡ 0
        → lookup (meta_key from) (open_manager false).sessions_by_peer ≡ none
        → check_interface_policy (some lan_only) from.src_addr from.if_name ≡ ok tt
        → demux_with_wire counting other from bytes
            (flood 10 counting hello lan_meta hello_bytes (open_manager false)).0
          ≡ (
            (flood 10 counting hello lan_meta hello_bytes (open_manager false)).0,
            err (policy_failed unsolicited_max_sessions),
          ))
no_sender_leaks_example =
    no_sender_leaks counting hello lan_meta hello_bytes lan_only refl let_in refl 10 0
      (open_manager false) (unknown_peer false).1 (unknown_peer false).2 (unknown_peer false).0
      (omega arith) (omega arith)
