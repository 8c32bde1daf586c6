-- ===== src/Manager/Dispatch.antt =====
-- The dispatch of state changes, the clean-up of unsolicited sessions, the drain and the shutdown:
-- internal/bfd/manager.go, and the subscriptions of manager_session.go.
use gobfd.Common.{
  ℕ, ◌+◌, List, [], ◌∷◌, ◌++◌, Option, none, some, Bool, true, false, not, ◌&&◌, ◌==◌, ltb,
  if◌then◌else◌, length,
}
use gobfd.Assoc.{nat_key, lookup, insert, delete}
use gobfd.Packet.{down}
use gobfd.Fsm.{state_eq}
use gobfd.Session.{SessionType, micro_bfd, StateChange, Channel}
use gobfd.Session.Endpoint.{send_admin_down}
use gobfd.Discriminator.{DiscriminatorAllocator, contains, release}
use gobfd.Manager.{Entry, Manager, empty_channel, store, destroy_session}
use gobfd.Manager.Demux.{at_entry}
use gobfd.Manager.Micro.{dispatch_micro_bfd}

-- A select with a default: a full channel drops the change.
abbrev pub offer : StateChange → Channel → Channel
offer sc ch =
    if ltb (length ch.queue) ch.capacity then record ch { queue = ch.queue ++ (sc ∷ []) } else ch

unfoldable pub offer_all : StateChange → List (ℕ × Channel) → List (ℕ × Channel)
offer_all sc [] = []
offer_all sc ((id, ch) ∷ rest) = (id, offer sc ch) ∷ offer_all sc rest

unfoldable pub broadcast_state_change : StateChange → Manager → Manager
unfolding offer_all
broadcast_state_change sc m = record m { subscribers = offer_all sc m.subscribers }

-- Whether the entry that a lookup found is there and unsolicited.
abbrev pub is_unsolicited : Option ℕ → (ℕ → Entry) → Bool
is_unsolicited none heap = false
is_unsolicited (some p) heap = (heap p).unsolicited

unfoldable pub schedule_unsolicited_cleanup : StateChange → Manager → Manager
schedule_unsolicited_cleanup sc m = elim m.unsolicited_state [
  | none ↦ m
  | some u ↦
      if is_unsolicited (lookup sc.change_discr m.sessions) m.heap
      then record m { cleanups = m.cleanups ++ (sc.change_discr ∷ []) }
      else m
]

-- Whether the entry is still one to clean up; the state is the one that other goroutines see.
abbrev pub is_stale : Option ℕ → (ℕ → Entry) → Bool
is_stale none heap = false
is_stale (some p) heap = (heap p).unsolicited && state_eq (heap p).endpoint.session.state down

-- A failed DestroySession is logged, and changes nothing.
unfoldable pub cleanup_unsolicited_session : ℕ → Manager → Manager
cleanup_unsolicited_session local_discr m =
    if is_stale (lookup local_discr m.sessions) m.heap then (destroy_session local_discr m).0 else m

unfoldable pub drop_one : ℕ → List ℕ → List ℕ
drop_one n [] = []
drop_one n (x ∷ xs) = if x == n then xs else x ∷ drop_one n xs

-- A goroutine that was scheduled for the discriminator goes on: its timer fired, or its timeout
-- was not positive.
unfoldable pub fire_cleanup : ℕ → Manager → Manager
unfolding cleanup_unsolicited_session drop_one
fire_cleanup discr m =
    if contains m.cleanups discr
    then cleanup_unsolicited_session discr (record m { cleanups = drop_one discr m.cleanups })
    else m

abbrev pub is_micro : SessionType → Bool
is_micro micro_bfd = true
is_micro t = false

-- RunDispatch on one change that it received.
unfoldable pub dispatch : StateChange → Manager → Manager
dispatch sc m =
    let m1 =
      if is_micro sc.change_type && not (sc.change_interface == 0)
      then dispatch_micro_bfd sc m
      else m in
    let m2 = if state_eq sc.change_new down then schedule_unsolicited_cleanup sc m1 else m1 in
    let m3 = broadcast_state_change sc m2 in
    record m3 { public_notify_ch = offer sc m3.public_notify_ch }

-- One turn of the loop on what the channel holds: the select waits while it is empty.
unfoldable pub dispatch_first : List StateChange → Manager → Manager
dispatch_first [] m = m
dispatch_first (sc ∷ rest) m =
    dispatch sc (record m { raw_notify_ch = record m.raw_notify_ch { queue = rest } })

unfoldable pub run_dispatch : Manager → Manager
unfolding dispatch_first
run_dispatch m = dispatch_first m.raw_notify_ch.queue m

unfoldable pub subscribe_state_changes : Manager → Manager × ℕ
subscribe_state_changes m = (
  record m { subscribers = insert m.next empty_channel m.subscribers; next = m.next + 1 },
  m.next,
)

-- The end of the context that the subscriber gave.
unfoldable pub unsubscribe : ℕ → Manager → Manager
unsubscribe id m = record m { subscribers = delete id m.subscribers }

-- The loop of DrainAllSessions over the map.
unfoldable pub drain : List (ℕ × ℕ) → Manager → Manager
drain [] m = m
drain ((d, p) ∷ rest) m = drain rest (at_entry p send_admin_down m)

unfoldable pub drain_all_sessions : Manager → Manager
unfolding drain
drain_all_sessions m = drain m.sessions m

-- The two loops of Close: each entry is cancelled, and each discriminator released.
unfoldable pub cancel_all : List (ℕ × ℕ) → (ℕ → Entry) → ℕ → Entry
cancel_all [] heap = heap
cancel_all ((d, p) ∷ rest) heap =
    cancel_all rest (store p (record (heap p) { cancelled = true }) heap)

unfoldable pub release_all {ℓ} :
    {V : Type ℓ} → List (ℕ × V) → DiscriminatorAllocator → DiscriminatorAllocator
release_all [] d = d
release_all ((discr, v) ∷ rest) d = release_all rest (release discr d)

unfoldable pub close : Manager → Manager
unfolding cancel_all release_all
close m = record m {
  heap = cancel_all m.sessions m.heap;
  discriminators = release_all m.echo_sessions (release_all m.sessions m.discriminators);
  sessions = [];
  sessions_by_peer = [];
  echo_sessions = [];
  micro_groups = [];
  subscribers = [];
}
