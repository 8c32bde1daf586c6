-- ===== src/Manager/Invariant.antt =====
-- Every call of the manager's methods and every turn of its goroutines, on the consistency of the
-- tables of internal/bfd/manager.go.
use gobfd.Common.{
  ℕ, ◌+◌, ◌≡◌, refl, ◌∙◌, List, [], ◌∷◌, Option, Bool, true, false, not, ◌&&◌, if◌then◌else◌, arith,
  Result, ok, err,
}
use gobfd.Assoc.{nat_key, lookup, is_some}
use gobfd.Discriminator.{DiscriminatorAllocator, contains, release, is_allocated}
use gobfd.Discriminator.Fresh.{removed}
use gobfd.MicroBfd.{MicroBfdConfig}
use gobfd.Unsolicited.{UnsolicitedPolicy}
use gobfd.Manager.{session_key, Entry, Manager, ManagerError, new_manager, destroy_session}
use gobfd.Manager.Consistent.{IsConsistent, destroy-IsConsistent}
use gobfd.Manager.Create.{create-IsConsistent}
use gobfd.Manager.Kept.{
  SameStore-SameTables, SameTables-IsConsistent, Keeps-IsConsistent, interface_event-Keeps,
  drain_all-Keeps, run_dispatch-Keeps, subscribe-Keeps, unsubscribe-Keeps, begin-Keeps, end-Keeps,
  serve-Keeps, SameStore,
}
use gobfd.Manager.Tables.{demux-IsConsistent, demux_with_wire-IsConsistent, cleanup-IsConsistent}
use gobfd.Manager.EchoTables.{
  create_echo-IsConsistent, destroy_echo-IsConsistent, demux_echo-IsConsistent,
}
use gobfd.Manager.Dispatch.{release_all, close}
use gobfd.Manager.Echo.{destroy_echo_session}
use gobfd.Manager.Micro.{create_micro_bfd_group, destroy_micro_bfd_group}
use gobfd.Manager.Reconcile.{
  Outcome, tally_call, destroy_unwanted, create_missing, begun, desired_keys, reconcile,
  reconcile_sessions, reconcile_echo_sessions, reconcile_micro_bfd_groups, ReconcileConfig,
}
use gobfd.Manager.Calls.{
  Call, creates, destroys, demuxes, demuxes_wire, interface_event, dispatches, subscribes, drains,
  closes, cleans_up, unsubscribes, creates_echo, destroys_echo, demuxes_echo, creates_group,
  destroys_group, reconciles, reconciles_echo, reconciles_groups, serves, begins, ends, call,
  run_calls,
}

-- What a loop of releases leaves allocated.
released_all {ℓ} :
    {V : Type ℓ} (l : List (ℕ × V)) (e : ℕ) (d : DiscriminatorAllocator)
    → is_allocated e (release_all l d) ≡ (not (is_some (lookup e l)) && is_allocated e d)
unfolding release_all lookup is_allocated release
released_all [] e d = ground arith
released_all ((discr, v) ∷ rest) e d =
    released_all rest e (release discr d) ∙ ground (arith, removed d.allocated discr e)

close-IsConsistent : (m : Manager) → IsConsistent m → IsConsistent (close m)
unfolding close lookup
close-IsConsistent m c = record {
  distinct = tt;
  distinct_peers = tt;
  by_discr = λ d p h. ground arith;
  by_peer = λ k p h. ground arith;
  by_echo = λ d es h. ground arith;
  apart = λ d. refl;
  exact = λ d. ground (
    arith,
    released_all m.echo_sessions d (release_all m.sessions m.discriminators),
    released_all m.sessions d m.discriminators,
    c.exact d,
  );
}

groups-IsConsistent : (m t : Manager) → SameStore m t → IsConsistent m → IsConsistent t
groups-IsConsistent m t same = SameTables-IsConsistent m t (SameStore-SameTables m t same)

create_group-SameStore :
    (cfg : MicroBfdConfig) (m : Manager) → SameStore m (create_micro_bfd_group cfg m).0
unfolding create_micro_bfd_group
create_group-SameStore cfg m = ground arith

destroy_group-SameStore : (lag : ℕ) (m : Manager) → SameStore m (destroy_micro_bfd_group lag m).0
unfolding destroy_micro_bfd_group
destroy_group-SameStore lag m = ground arith

tallied-IsConsistent {ℓ} :
    {A : Type ℓ} (o : Outcome) (m : Manager) (r : Result ManagerError A)
    → IsConsistent m
    → IsConsistent (tally_call o (m, r)).manager
tallied-IsConsistent o m (ok a) c = c
tallied-IsConsistent o m (err e) c = c

either-IsConsistent :
    (b : Bool) (x y : Outcome)
    → IsConsistent x.manager
    → IsConsistent y.manager
    → IsConsistent (if b then x else y).manager
either-IsConsistent true x y c d = c
either-IsConsistent false x y c d = d

module _ {Cfg : Type 0} where
  destroy_unwanted-IsConsistent :
      (destroy : ℕ → Manager → Manager × Result ManagerError (Unit {0}))
      → ((d : ℕ) (m : Manager) → IsConsistent m → IsConsistent (destroy d m).0)
      → (desired : List (ℕ × Cfg)) (current : List (ℕ × ℕ)) (o : Outcome) → IsConsistent o.manager
      → IsConsistent (destroy_unwanted destroy desired current o).manager
  unfolding destroy_unwanted
  destroy_unwanted-IsConsistent destroy keep desired [] o c = c
  destroy_unwanted-IsConsistent destroy keep desired ((key, discr) ∷ rest) o c =
      destroy_unwanted-IsConsistent destroy keep desired rest _ (
        either-IsConsistent (is_some (lookup key desired)) o _ c
          (tallied-IsConsistent o _ _ (keep discr o.manager c)))

  create_missing-IsConsistent {ℓ} :
      {A : Type ℓ} (create : ℕ → Cfg → Manager → Manager × Result ManagerError A)
      → ((turn : ℕ) (cfg : Cfg) (m : Manager) → IsConsistent m → IsConsistent (create turn cfg m).0)
      → (turn : ℕ) (current : List (ℕ × ℕ)) (wanted : List (ℕ × Cfg)) (o : Outcome)
      → IsConsistent o.manager
      → IsConsistent (create_missing create turn current wanted o).manager
  unfolding create_missing
  create_missing-IsConsistent create keep turn current [] o c = c
  create_missing-IsConsistent create keep turn current ((key, cfg) ∷ rest) o c =
      create_missing-IsConsistent create keep (turn + 1) current rest _ (
        either-IsConsistent (is_some (lookup key current)) o _ c
          (tallied-IsConsistent o _ _ (keep turn cfg o.manager c)))

  reconcile-IsConsistent {ℓ} :
      {A : Type ℓ} (destroy : ℕ → Manager → Manager × Result ManagerError (Unit {0}))
      (create : ℕ → Cfg → Manager → Manager × Result ManagerError A)
      → ((d : ℕ) (m : Manager) → IsConsistent m → IsConsistent (destroy d m).0)
      → ((turn : ℕ) (cfg : Cfg) (m : Manager) → IsConsistent m → IsConsistent (create turn cfg m).0)
      → (desired : List (ReconcileConfig Cfg)) (current : List (ℕ × ℕ)) (m : Manager)
      → IsConsistent m
      → IsConsistent (reconcile destroy create desired current m).after
  unfolding reconcile
  reconcile-IsConsistent destroy create dies lives desired current m c =
      let wanted = desired_keys desired [] in
      let o = destroy_unwanted destroy wanted current (begun m) in
      create_missing-IsConsistent create lives 0 current wanted (record o { count = 0 })
        (destroy_unwanted-IsConsistent destroy dies wanted current (begun m) c)

pub call-IsConsistent : (a : Call) (m : Manager) → IsConsistent m → IsConsistent (call a m)
unfolding call reconcile_sessions reconcile_echo_sessions reconcile_micro_bfd_groups
call-IsConsistent (creates supply cfg) m c = create-IsConsistent supply cfg m c
call-IsConsistent (destroys d) m c = destroy-IsConsistent d m c
call-IsConsistent (demuxes pkt meta) m c = demux-IsConsistent pkt meta m c
call-IsConsistent (demuxes_wire supply pkt meta wire) m c =
    demux_with_wire-IsConsistent supply pkt meta wire m c
call-IsConsistent (interface_event name is_up) m c =
    Keeps-IsConsistent m _ (interface_event-Keeps name is_up m) c
call-IsConsistent dispatches m c = Keeps-IsConsistent m _ (run_dispatch-Keeps m) c
call-IsConsistent subscribes m c = Keeps-IsConsistent m _ (subscribe-Keeps m) c
call-IsConsistent drains m c = Keeps-IsConsistent m _ (drain_all-Keeps m) c
call-IsConsistent closes m c = close-IsConsistent m c
call-IsConsistent (cleans_up d) m c = cleanup-IsConsistent d m c
call-IsConsistent (unsubscribes id) m c = Keeps-IsConsistent m _ (unsubscribe-Keeps id m) c
call-IsConsistent (creates_echo reads cfg) m c = create_echo-IsConsistent reads cfg m c
call-IsConsistent (destroys_echo d) m c = destroy_echo-IsConsistent d m c
call-IsConsistent (demuxes_echo d) m c = demux_echo-IsConsistent d m c
call-IsConsistent (creates_group cfg) m c = groups-IsConsistent m _ (create_group-SameStore cfg m) c
call-IsConsistent (destroys_group lag) m c =
    groups-IsConsistent m _ (destroy_group-SameStore lag m) c
call-IsConsistent (reconciles text supply desired) m c =
    reconcile-IsConsistent destroy_session _ destroy-IsConsistent
      (λ turn. create-IsConsistent (supply turn)) desired _ m c
call-IsConsistent (reconciles_echo text reads desired) m c =
    reconcile-IsConsistent destroy_echo_session _ destroy_echo-IsConsistent
      (λ turn. create_echo-IsConsistent (reads turn)) desired _ m c
call-IsConsistent (reconciles_groups desired) m c =
    reconcile-IsConsistent destroy_micro_bfd_group _
      (λ lag t. groups-IsConsistent t _ (destroy_group-SameStore lag t))
      (λ turn cfg t. groups-IsConsistent t _ (create_group-SameStore cfg t)) desired _ m c
call-IsConsistent (serves env choice p) m c = Keeps-IsConsistent m _ (serve-Keeps env choice p m) c
call-IsConsistent (begins p) m c = Keeps-IsConsistent m _ (begin-Keeps p m) c
call-IsConsistent (ends p) m c = Keeps-IsConsistent m _ (end-Keeps p m) c

run_calls-IsConsistent :
    (calls : List Call) (m : Manager) → IsConsistent m → IsConsistent (run_calls calls m)
unfolding run_calls
run_calls-IsConsistent [] m c = c
run_calls-IsConsistent (a ∷ rest) m c =
    run_calls-IsConsistent rest (call a m) (call-IsConsistent a m c)

new_manager-IsConsistent :
    (memory : ℕ → Entry) (policy : Option UnsolicitedPolicy) (has_sender has_actuator : Bool)
    → IsConsistent (new_manager memory policy has_sender has_actuator)
unfolding new_manager lookup is_allocated contains
new_manager-IsConsistent memory policy has_sender has_actuator = record {
  distinct = tt;
  distinct_peers = tt;
  by_discr = λ d p h. ground arith;
  by_peer = λ k p h. ground arith;
  by_echo = λ d es h. ground arith;
  apart = λ d. refl;
  exact = λ d. refl;
}

-- From its creation and through every sequence of calls, in which the goroutines of the sessions
-- and the dispatcher take their turns anywhere, the manager is consistent: the table of
-- discriminators and the table of peers hold the same entries, each under its own discriminator
-- and its own key; no discriminator is zero or shared by two sessions, control or echo; and
-- exactly the discriminators of the sessions there are allocated, so none leaks.
pub manager-IsConsistent :
    (memory : ℕ → Entry) (policy : Option UnsolicitedPolicy) (has_sender has_actuator : Bool)
    (calls : List Call)
    → IsConsistent (run_calls calls (new_manager memory policy has_sender has_actuator))
manager-IsConsistent memory policy has_sender has_actuator calls =
    run_calls-IsConsistent calls _ (new_manager-IsConsistent memory policy has_sender has_actuator)
