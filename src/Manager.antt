-- ===== src/Manager.antt =====
-- The manager of all sessions: internal/bfd/manager.go, and the creation and destruction of sessions
-- in internal/bfd/manager_session.go. The two tables hold pointers to one entry, so entries live in
-- a heap; a method that holds the lock is one step. An interface's name is a number, 0 the empty
-- one.
pub mod Consistent
pub mod Create
pub mod Demux
pub mod Dispatch
pub mod Micro
pub mod Echo
pub mod Reconcile
pub mod Serve
pub mod Calls
pub mod Kept
pub mod Tables
pub mod EchoTables
pub mod Invariant
pub mod Routing
pub mod Passive
pub mod Leak
pub mod Reload
pub mod Settled
pub mod Counting
use gobfd.Common.{
  ℕ, ◌+◌, ◌≡◌, ◌↔◌, List, [], ◌∷◌, Option, none, some, Bool, true, false, ◌&&◌, ◌==◌, ==_iff,
  if◌then◌else◌, arith, Result, ok, err, ◌>>=◌, ◌>>◌, guard,
}
use gobfd.Netip.{Addr, is_valid, addr_eq, addr_eq_iff}
use gobfd.Assoc.{KeyType, nat_key, lookup, insert, delete}
use gobfd.Session.{SessionConfig, Session, Env, Channel}
use gobfd.Session.Config.{ConfigError, new_session}
use gobfd.Session.Endpoint.{Endpoint, new_endpoint}
use gobfd.Discriminator.{
  AllocError, DiscriminatorAllocator, new_discriminator_allocator, allocate, release,
}
use gobfd.Packet.{State}
use gobfd.Echo.{EchoSession, EchoError}
use gobfd.MicroBfd.{MicroBfdGroup, MicroError}
use gobfd.Unsolicited.{UnsolicitedError, UnsolicitedPolicy}
use gobfd.Unsolicited

pub record SessionKey : Type 0 where
  pub key_peer_addr : Addr
  pub key_local_addr : Addr
  pub key_if_name : ℕ

abbrev pub key_eq : SessionKey → SessionKey → Bool
key_eq a b =
    addr_eq a.key_peer_addr b.key_peer_addr
    && addr_eq a.key_local_addr b.key_local_addr
    && a.key_if_name == b.key_if_name

pub key_eq_iff : (a b : SessionKey) → (key_eq a b ≡ true) ↔ (a ≡ b)
key_eq_iff a b = ground (
  arith,
  addr_eq_iff a.key_peer_addr b.key_peer_addr,
  addr_eq_iff a.key_local_addr b.key_local_addr,
)

instance abbrev pub session_key : KeyType SessionKey
session_key = record { same = key_eq; same_iff = key_eq_iff }

-- `sessionEntry`, with the channels of its session; `cancelled` says whether `cancel` was called.
pub record Entry : Type 0 where
  pub endpoint : Endpoint
  pub key : SessionKey
  pub unsolicited : Bool
  pub cancelled : Bool

-- The counter is the bit pattern of an int32.
pub record UnsolicitedState : Type 0 where
  pub policy : UnsolicitedPolicy
  pub session_count : ℕ

pub record MicroBfdMemberEvent : Type 0 where
  pub event_lag : ℕ
  pub event_member : ℕ
  pub event_old : State
  pub event_new : State
  pub event_discr : ℕ
  pub event_aggregate_up : Bool
  pub event_aggregate_changed : Bool

-- The heap is a function of the address; addresses below `next` are in use.
pub record Manager : Type 0 where
  pub heap : ℕ → Entry
  pub next : ℕ
  pub sessions : List (ℕ × ℕ)
  pub sessions_by_peer : List (SessionKey × ℕ)
  pub discriminators : DiscriminatorAllocator
  pub unsolicited_state : Option UnsolicitedState
  -- Whether `unsolicitedSender` is set.
  pub has_unsolicited_sender : Bool
  pub raw_notify_ch : Channel
  pub public_notify_ch : Channel
  pub subscribers : List (ℕ × Channel)
  -- The goroutines that wait to clean up, each by the discriminator that it was given.
  pub cleanups : List ℕ
  pub echo_sessions : List (ℕ × EchoSession)
  pub micro_groups : List (ℕ × MicroBfdGroup)
  -- The events that the actuator was given, the latest first, if one is set.
  pub micro_actuator : Option (List MicroBfdMemberEvent)

pub data ManagerError : Type 0 where
  invalid_peer_addr duplicate_session session_not_found demux_no_match no_unsolicited_sender :
      ManagerError
  allocate_failed : AllocError → ManagerError
  config_failed : ConfigError → ManagerError
  policy_failed : UnsolicitedError → ManagerError
  echo_session_not_found echo_demux_no_match : ManagerError
  echo_failed : EchoError → ManagerError
  micro_group_not_found micro_group_exists : ManagerError
  micro_failed : MicroError → ManagerError

abbrev pub notify_ch_size : ℕ
notify_ch_size = 64

abbrev pub empty_channel : Channel
empty_channel = record { capacity = notify_ch_size; queue = [] }

-- NewManager with its options, of which a policy that is not enabled is dropped; `memory` is what the heap holds before anything is stored there.
unfoldable pub new_manager : (ℕ → Entry) → Option UnsolicitedPolicy → Bool → Bool → Manager
new_manager memory policy has_sender has_actuator = record {
  heap = memory;
  next = 0;
  sessions = [];
  sessions_by_peer = [];
  discriminators = new_discriminator_allocator;
  unsolicited_state = elim policy [
    | none ↦ none
    | some p ↦ if p.enabled then some (record { policy = p; session_count = 0 }) else none
  ];
  has_unsolicited_sender = has_sender;
  raw_notify_ch = empty_channel;
  public_notify_ch = empty_channel;
  subscribers = [];
  cleanups = [];
  echo_sessions = [];
  micro_groups = [];
  micro_actuator = if has_actuator then some [] else none;
}

-- A write to the heap.
abbrev pub store : ℕ → Entry → (ℕ → Entry) → ℕ → Entry
store at entry heap p = if at == p then entry else heap p

-- What the creation of a session takes from outside: the numbers that the random source gives the
-- allocator, the seed of the jitter and of the authentication, and the environment.
pub record Supply : Type 0 where
  pub reads : ℕ → Option ℕ
  pub seed : ℕ
  pub random : ℕ
  pub env : Env

abbrev pub key_of : SessionConfig → SessionKey
key_of cfg = record {
  key_peer_addr = cfg.cfg_peer_addr;
  key_local_addr = cfg.cfg_local_addr;
  key_if_name = cfg.cfg_interface;
}

unfoldable pub check_duplicate : SessionKey → Manager → Result ManagerError (Unit {0})
check_duplicate key m = elim (lookup key m.sessions_by_peer) [
  | some p ↦ err duplicate_session
  | none ↦ ok tt
]

-- NewSession with the manager's channel, and Release where it fails.
unfoldable pub build :
    Supply → SessionConfig → ℕ → Manager → Manager × Result ManagerError (ℕ × Session)
build supply cfg discr m =
    elim (new_session supply.env cfg discr (some m.raw_notify_ch) supply.seed supply.random) [
      | err failure ↦ (
        record m { discriminators = release discr m.discriminators },
        err (config_failed failure),
      )
      | ok sess ↦ (m, ok (discr, sess))
    ]

-- What becomes of the allocator's answer.
unfoldable pub build_on :
    Supply
    → SessionConfig
    → Manager
    → DiscriminatorAllocator × Result AllocError ℕ
    → Manager × Result ManagerError (ℕ × Session)
build_on supply cfg m (d, err failure) =
    (record m { discriminators = d }, err (allocate_failed failure))
build_on supply cfg m (d, ok discr) = build supply cfg discr (record m { discriminators = d })

unfoldable pub allocate_and_build :
    Supply → SessionConfig → Manager → Manager × Result ManagerError (ℕ × Session)
allocate_and_build supply cfg m = build_on supply cfg m (allocate supply.reads m.discriminators)

abbrev new_entry : SessionKey → Session → Entry
new_entry key sess = record {
  endpoint = new_endpoint sess;
  key = key;
  unsolicited = false;
  cancelled = false;
}

-- The entry goes to the next address, and the address into both tables.
unfoldable pub register_and_start :
    SessionKey → ℕ → Session → Manager → Manager × Result ManagerError ℕ
register_and_start key discr sess m = elim (lookup key m.sessions_by_peer) [
  | some p ↦ (m, err duplicate_session)
  | none ↦ (
    record m {
      heap = store m.next (new_entry key sess) m.heap;
      next = m.next + 1;
      sessions = insert discr m.next m.sessions;
      sessions_by_peer = insert key m.next m.sessions_by_peer;
    },
    ok m.next,
  )
]

-- Release where the registration was refused.
abbrev pub or_release : ℕ → Manager × Result ManagerError ℕ → Manager × Result ManagerError ℕ
or_release discr (m, err failure) =
    (record m { discriminators = release discr m.discriminators }, err failure)
or_release discr (m, ok p) = (m, ok p)

-- The registration of what was built.
abbrev pub register_on :
    SessionKey → Manager × Result ManagerError (ℕ × Session) → Manager × Result ManagerError ℕ
register_on key (m, err failure) = (m, err failure)
register_on key (m, ok (discr, sess)) = or_release discr (register_and_start key discr sess m)

-- The tests that come before an allocation.
unfoldable pub check_new : SessionConfig → Manager → Result ManagerError (Unit {0})
check_new cfg m = do
  guard (is_valid cfg.cfg_peer_addr) invalid_peer_addr
  check_duplicate (key_of cfg) m

abbrev pub create_checked :
    Result ManagerError (Unit {0})
    → Supply
    → SessionConfig
    → Manager
    → Manager × Result ManagerError ℕ
create_checked (err failure) supply cfg m = (m, err failure)
create_checked (ok passed) supply cfg m = register_on (key_of cfg) (allocate_and_build supply cfg m)

-- The result is the address of the new entry; the sender stands in the environment.
unfoldable pub create_session : Supply → SessionConfig → Manager → Manager × Result ManagerError ℕ
create_session supply cfg m = create_checked (check_new cfg m) supply cfg m

-- The counter goes down for an unsolicited session.
abbrev pub release_counter : Bool → Option UnsolicitedState → Option UnsolicitedState
release_counter true (some u) =
    some (record u { session_count = Unsolicited.release u.session_count })
release_counter true none = none
release_counter false u = u

unfoldable pub destroy_session : ℕ → Manager → Manager × Result ManagerError (Unit {0})
destroy_session local_discr m = elim (lookup local_discr m.sessions) [
  | none ↦ (m, err session_not_found)
  | some p ↦ (
    record m {
      sessions = delete local_discr m.sessions;
      sessions_by_peer = delete (m.heap p).key m.sessions_by_peer;
      unsolicited_state = release_counter (m.heap p).unsolicited m.unsolicited_state;
      heap = store p (record (m.heap p) { cancelled = true }) m.heap;
      discriminators = release local_discr m.discriminators;
    },
    ok tt,
  )
]
