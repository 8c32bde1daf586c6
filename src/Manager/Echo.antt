-- ===== src/Manager/Echo.antt =====
-- The echo sessions of the manager: internal/bfd/manager_echo.go.
use gobfd.Common.{ℕ, Option, none, some, if◌then◌else◌, Result, ok, err}
use gobfd.Assoc.{nat_key, lookup, insert, delete}
use gobfd.Netip.{is_valid}
use gobfd.Discriminator.{AllocError, DiscriminatorAllocator, allocate, release}
use gobfd.Echo.{EchoSessionConfig, new_echo_session, recv_echo}
use gobfd.Manager.{
  Manager, ManagerError, invalid_peer_addr, allocate_failed, echo_failed, echo_session_not_found,
  echo_demux_no_match,
}

-- NewEchoSession on the number, and the entry in the map.
unfoldable pub add_echo : EchoSessionConfig → ℕ → Manager → Manager × Result ManagerError ℕ
add_echo cfg discr m = elim (new_echo_session cfg discr (some m.raw_notify_ch)) [
  | err failure ↦
      (record m { discriminators = release discr m.discriminators }, err (echo_failed failure))
  | ok es ↦ (record m { echo_sessions = insert discr es m.echo_sessions }, ok discr)
]

-- What becomes of the allocator's answer.
unfoldable pub add_echo_on :
    EchoSessionConfig
    → Manager
    → DiscriminatorAllocator × Result AllocError ℕ
    → Manager × Result ManagerError ℕ
unfolding add_echo
add_echo_on cfg m (d, err failure) =
    (record m { discriminators = d }, err (allocate_failed failure))
add_echo_on cfg m (d, ok discr) = add_echo cfg discr (record m { discriminators = d })

-- `reads` are the numbers that the random source gives the allocator.
unfoldable pub create_echo_session :
    (ℕ → Option ℕ) → EchoSessionConfig → Manager → Manager × Result ManagerError ℕ
unfolding add_echo_on
create_echo_session reads cfg m =
    if is_valid cfg.echo_peer_addr
    then add_echo_on cfg m (allocate reads m.discriminators)
    else (m, err invalid_peer_addr)

unfoldable pub destroy_echo_session : ℕ → Manager → Manager × Result ManagerError (Unit {0})
destroy_echo_session discr m = elim (lookup discr m.echo_sessions) [
  | none ↦ (m, err echo_session_not_found)
  | some es ↦ (
    record m {
      echo_sessions = delete discr m.echo_sessions;
      discriminators = release discr m.discriminators;
    },
    ok tt,
  )
]

-- The session is signalled through its pointer.
unfoldable pub demux_echo : ℕ → Manager → Manager × Result ManagerError (Unit {0})
demux_echo my_discr m = elim (lookup my_discr m.echo_sessions) [
  | none ↦ (m, err echo_demux_no_match)
  | some es ↦ (record m { echo_sessions = insert my_discr (recv_echo es) m.echo_sessions }, ok tt)
]
