-- ===== src/Manager/Kept.antt =====
-- Operations of the manager (internal/bfd/manager.go and its parts) that leave the tables alone.
use gobfd.Common.{
  ℕ, ◌≤◌, ◌≡◌, refl, sym, ap, ◌∙◌, List, [], ◌∷◌, Option, none, some, Bool, true, false, ◌==◌, ◌||◌,
  if◌then◌else◌, arith, inl, inr, Option-cases, Bool-cases,
}
use mathlib.Core.Path.{subst}
use gobfd.Assoc.{nat_key, lookup, Distinct}
use gobfd.Packet.{ControlPacket}
use gobfd.Session.{StateChange, Session, Env}
use gobfd.Session.Timing.{reset_tx_timer, reset_detect_timer}
use gobfd.Session.Loop.{Control, start, step, Input, set_admin_down}
use gobfd.Session.Identity.{step-local_discr}
use gobfd.Session.Endpoint.{Endpoint, RecvItem, recv_packet, send_admin_down, set_path_down}
use gobfd.Manager.{SessionKey, session_key, Entry, Manager, store}
use gobfd.Manager.Consistent.{IsConsistent, discr_at}
use gobfd.Manager.Demux.{
  at_entry, deliver, on_interface, path_down_all, handle_interface_event, mark_at,
  mark_session_unsolicited,
}
use gobfd.Manager.Dispatch.{
  broadcast_state_change, schedule_unsolicited_cleanup, dispatch, dispatch_first, run_dispatch,
  subscribe_state_changes, unsubscribe, drain, drain_all_sessions,
}
use gobfd.Manager.Micro.{dispatch_micro_bfd}
use gobfd.Manager.Serve.{
  Choice, from_recv, from_ctrl, from_tx_timer, from_detect_timer, first_packet, first_command,
  receive, serve, begin, end, with_channel, served,
}

-- The second manager has the tables of the first, and no entry changed its discriminator or key.
pub record SameTables (m t : Manager) : Type 0 where
  pub sessions_kept : t.sessions ≡ m.sessions
  pub by_peer_kept : t.sessions_by_peer ≡ m.sessions_by_peer
  pub echo_kept : t.echo_sessions ≡ m.echo_sessions
  pub discriminators_kept : t.discriminators ≡ m.discriminators
  pub next_grows : m.next ≤ t.next
  pub entries_kept : (p : ℕ) → ((t.heap p).key ≡ (m.heap p).key) × (discr_at t p ≡ discr_at m p)

pub SameTables-refl : (m : Manager) → SameTables m m
SameTables-refl m = record {
  sessions_kept = refl;
  by_peer_kept = refl;
  echo_kept = refl;
  discriminators_kept = refl;
  next_grows = omega arith;
  entries_kept = λ p. (refl, refl);
}

pub SameTables-trans : {m t u : Manager} → SameTables m t → SameTables t u → SameTables m u
SameTables-trans k l = record {
  sessions_kept = l.sessions_kept ∙ k.sessions_kept;
  by_peer_kept = l.by_peer_kept ∙ k.by_peer_kept;
  echo_kept = l.echo_kept ∙ k.echo_kept;
  discriminators_kept = l.discriminators_kept ∙ k.discriminators_kept;
  next_grows = omega (arith, k.next_grows, l.next_grows);
  entries_kept = λ p.
      ((l.entries_kept p).0 ∙ (k.entries_kept p).0, (l.entries_kept p).1 ∙ (k.entries_kept p).1);
}

pub SameTables-IsConsistent : (m t : Manager) → SameTables m t → IsConsistent m → IsConsistent t
SameTables-IsConsistent m t k c =
    let named : (d : ℕ) → lookup d t.sessions ≡ lookup d m.sessions =
      λ d. ap (λ l. lookup d l) k.sessions_kept in
    let keyed : (q : SessionKey) → lookup q t.sessions_by_peer ≡ lookup q m.sessions_by_peer =
      λ q. ap (λ l. lookup q l) k.by_peer_kept in
    let echoes : (d : ℕ) → lookup d t.echo_sessions ≡ lookup d m.echo_sessions =
      λ d. ap (λ l. lookup d l) k.echo_kept in
    record {
      distinct = subst Distinct (sym k.sessions_kept) c.distinct;
      distinct_peers = subst Distinct (sym k.by_peer_kept) c.distinct_peers;
      by_discr = λ d p h.
          let (discr, key, below, z) = c.by_discr d p (sym (named d) ∙ h) in
          (
            (k.entries_kept p).1 ∙ discr,
            keyed (t.heap p).key ∙ ap (λ q. lookup q m.sessions_by_peer) (k.entries_kept p).0 ∙ key,
            omega (arith, k.next_grows, below),
            z,
          );
      by_peer = λ q p h.
          let (key, found) = c.by_peer q p (sym (keyed q) ∙ h) in
          (
            (k.entries_kept p).0 ∙ key,
            named (discr_at t p) ∙ ap (λ d. lookup d m.sessions) (k.entries_kept p).1 ∙ found,
          );
      by_echo = λ d es h. c.by_echo d es (sym (echoes d) ∙ h);
      apart = λ d. rw (named d, echoes d) (c.apart d);
      exact = λ d. rw (named d, echoes d, k.discriminators_kept) (c.exact d);
    }

-- Nor did an entry change its mark, or the counter its value.
pub record Keeps (m t : Manager) : Type 0 where
  pub tables : SameTables m t
  pub marks_kept : (p : ℕ) → (t.heap p).unsolicited ≡ (m.heap p).unsolicited
  pub counter_kept : t.unsolicited_state ≡ m.unsolicited_state

pub Keeps-refl : (m : Manager) → Keeps m m
Keeps-refl m = record { tables = SameTables-refl m; marks_kept = λ p. refl; counter_kept = refl }

pub Keeps-trans : {m t u : Manager} → Keeps m t → Keeps t u → Keeps m u
Keeps-trans k l = record {
  tables = SameTables-trans k.tables l.tables;
  marks_kept = λ p. l.marks_kept p ∙ k.marks_kept p;
  counter_kept = l.counter_kept ∙ k.counter_kept;
}

pub Keeps-IsConsistent : (m t : Manager) → Keeps m t → IsConsistent m → IsConsistent t
Keeps-IsConsistent m t k = SameTables-IsConsistent m t k.tables

-- A change of one entry that keeps its key and its discriminator.
pub store-SameTables :
    (p : ℕ) (entry : Entry) (m : Manager)
    → entry.key ≡ (m.heap p).key
    → entry.endpoint.session.local_discr ≡ discr_at m p
    → SameTables m (record m { heap = store p entry m.heap })
store-SameTables p entry m key discr = record {
  sessions_kept = refl;
  by_peer_kept = refl;
  echo_kept = refl;
  discriminators_kept = refl;
  next_grows = omega arith;
  entries_kept = λ q. ground (arith, key, discr);
}

pub store-Keeps :
    (p : ℕ) (entry : Entry) (m : Manager)
    → entry.key ≡ (m.heap p).key
    → entry.endpoint.session.local_discr ≡ discr_at m p
    → entry.unsolicited ≡ (m.heap p).unsolicited
    → Keeps m (record m { heap = store p entry m.heap })
store-Keeps p entry m key discr mark = record {
  tables = store-SameTables p entry m key discr;
  marks_kept = λ q. ground (arith, mark);
  counter_kept = refl;
}

-- A method of a session, which never changes the discriminator.
pub at_entry-Keeps :
    (p : ℕ) (method : Endpoint → Endpoint) (m : Manager)
    → ((e : Endpoint) → (method e).session.local_discr ≡ e.session.local_discr)
    → Keeps m (at_entry p method m)
at_entry-Keeps p method m same =
    store-Keeps p (record (m.heap p) { endpoint = method (m.heap p).endpoint }) m refl
      (same (m.heap p).endpoint) refl

recv_packet-discr :
    (pkt : ControlPacket) (wire : List ℕ) (e : Endpoint)
    → (recv_packet pkt wire e).session.local_discr ≡ e.session.local_discr
unfolding recv_packet
recv_packet-discr pkt wire e = ground arith

path_down-discr : (e : Endpoint) → (set_path_down e).0.session.local_discr ≡ e.session.local_discr
unfolding set_path_down
path_down-discr e = ground arith

admin_down-discr : (e : Endpoint) → (send_admin_down e).session.local_discr ≡ e.session.local_discr
unfolding send_admin_down set_admin_down
admin_down-discr e = ground arith

pub recv-Keeps :
    (p : ℕ) (pkt : ControlPacket) (wire : List ℕ) (m : Manager)
    → Keeps m (at_entry p (recv_packet pkt wire) m)
recv-Keeps p pkt wire m = at_entry-Keeps p (recv_packet pkt wire) m (recv_packet-discr pkt wire)

pub deliver-Keeps :
    (o : Option ℕ) (pkt : ControlPacket) (wire : List ℕ) (m : Manager)
    → Keeps m (deliver o pkt wire m).0
unfolding deliver
deliver-Keeps none pkt wire m = Keeps-refl m
deliver-Keeps (some p) pkt wire m = recv-Keeps p pkt wire m

mark_at-SameTables : (o : Option ℕ) (m : Manager) → SameTables m (mark_at o m)
mark_at-SameTables none m = SameTables-refl m
mark_at-SameTables (some p) m =
    store-SameTables p (record (m.heap p) { unsolicited = true }) m refl refl

pub mark-SameTables : (d : ℕ) (m : Manager) → SameTables m (mark_session_unsolicited d m)
unfolding mark_session_unsolicited
mark-SameTables d m = mark_at-SameTables (lookup d m.sessions) m

path_down_all-Keeps : (l : List ℕ) (m : Manager) → Keeps m (path_down_all l m).0
unfolding path_down_all
path_down_all-Keeps [] m = Keeps-refl m
path_down_all-Keeps (p ∷ rest) m =
    Keeps-trans (at_entry-Keeps p (λ e. (set_path_down e).0) m path_down-discr)
      (path_down_all-Keeps rest (at_entry p (λ e. (set_path_down e).0) m))

pub interface_event-Keeps :
    (name : ℕ) (is_up : Bool) (m : Manager) → Keeps m (handle_interface_event name is_up m).0
unfolding handle_interface_event
interface_event-Keeps name is_up m = elim (Bool-cases (name == 0 || is_up)) [
  | inl nothing ↦ rw (nothing, handle_interface_event) (Keeps-refl m)
  | inr down ↦
      rw (down, handle_interface_event)
        (path_down_all-Keeps (on_interface name m.sessions m.heap) m)
]

drain-Keeps : (l : List (ℕ × ℕ)) (m : Manager) → Keeps m (drain l m)
unfolding drain
drain-Keeps [] m = Keeps-refl m
drain-Keeps ((d, p) ∷ rest) m =
    Keeps-trans (at_entry-Keeps p send_admin_down m admin_down-discr)
      (drain-Keeps rest (at_entry p send_admin_down m))

pub drain_all-Keeps : (m : Manager) → Keeps m (drain_all_sessions m)
unfolding drain_all_sessions
drain_all-Keeps m = drain-Keeps m.sessions m

-- A manager that differs in none of the tables and entries.
abbrev pub SameStore : Manager → Manager → Type 0
SameStore m t =
    (t.sessions ≡ m.sessions)
    × (t.sessions_by_peer ≡ m.sessions_by_peer)
    × (t.echo_sessions ≡ m.echo_sessions)
    × (t.discriminators ≡ m.discriminators)
    × (m.next ≤ t.next)
    × (t.heap ≡ m.heap)

pub SameStore-SameTables : (m t : Manager) → SameStore m t → SameTables m t
SameStore-SameTables m t (a, b, c, d, e, f) = record {
  sessions_kept = a;
  by_peer_kept = b;
  echo_kept = c;
  discriminators_kept = d;
  next_grows = e;
  entries_kept = λ p. (ap (λ h. (h p).key) f, ap (λ h. (h p).endpoint.session.local_discr) f);
}

pub SameStore-Keeps :
    (m t : Manager) → SameStore m t → t.unsolicited_state ≡ m.unsolicited_state → Keeps m t
SameStore-Keeps m t same counter = record {
  tables = SameStore-SameTables m t same;
  marks_kept = λ p. ap (λ h. (h p).unsolicited) same.5;
  counter_kept = counter;
}

dispatch-counter :
    (sc : StateChange) (m : Manager) → (dispatch sc m).unsolicited_state ≡ m.unsolicited_state
unfolding dispatch broadcast_state_change schedule_unsolicited_cleanup dispatch_micro_bfd
dispatch-counter sc m = ground arith

dispatch-SameStore : (sc : StateChange) (m : Manager) → SameStore m (dispatch sc m)
unfolding dispatch broadcast_state_change schedule_unsolicited_cleanup dispatch_micro_bfd
dispatch-SameStore sc m = ground arith

dispatch_first-Keeps : (l : List StateChange) (m : Manager) → Keeps m (dispatch_first l m)
unfolding dispatch_first
dispatch_first-Keeps [] m = Keeps-refl m
dispatch_first-Keeps (sc ∷ rest) m =
    SameStore-Keeps m _
      (dispatch-SameStore sc (record m { raw_notify_ch = record m.raw_notify_ch { queue = rest } }))
      (dispatch-counter sc (record m { raw_notify_ch = record m.raw_notify_ch { queue = rest } }))

either-Keeps : (b : Bool) (m t u : Manager) → Keeps m t → Keeps m u → Keeps m (if b then t else u)
either-Keeps true m t u k l = k
either-Keeps false m t u k l = l

pub run_dispatch-Keeps : (m : Manager) → Keeps m (run_dispatch m)
unfolding run_dispatch
run_dispatch-Keeps m = dispatch_first-Keeps m.raw_notify_ch.queue m

pub subscribe-Keeps : (m : Manager) → Keeps m (subscribe_state_changes m).0
unfolding subscribe_state_changes
subscribe-Keeps m = SameStore-Keeps m _ (refl, refl, refl, refl, omega arith, refl) refl

pub unsubscribe-Keeps : (id : ℕ) (m : Manager) → Keeps m (unsubscribe id m)
unfolding unsubscribe
unsubscribe-Keeps id m = SameStore-Keeps m _ (refl, refl, refl, refl, omega arith, refl) refl

start-discr : (s : Session) → (start s).local_discr ≡ s.local_discr
unfolding start reset_tx_timer reset_detect_timer
start-discr s = refl

pub begin-Keeps : (p : ℕ) (m : Manager) → Keeps m (begin p m)
unfolding begin
begin-Keeps p m =
    at_entry-Keeps p (λ e. record e { session = start e.session; running = true }) m
      (λ e. start-discr e.session)

pub end-Keeps : (p : ℕ) (m : Manager) → Keeps m (end p m)
unfolding end
end-Keeps p m =
    either-Keeps (m.heap p).cancelled m (at_entry p (λ e. record e { running = false }) m) m
      (at_entry-Keeps p (λ e. record e { running = false }) m (λ e. refl)) (Keeps-refl m)

first_packet-discr :
    (l : List RecvItem) (e e' : Endpoint) (i : Input)
    → first_packet l e ≡ some (i, e')
    → e'.session.local_discr ≡ e.session.local_discr
first_packet-discr [] e e' i h = ground arith
first_packet-discr (x ∷ l) e e' i h = ground arith

first_command-discr :
    (l : List Control) (e e' : Endpoint) (i : Input)
    → first_command l e ≡ some (i, e')
    → e'.session.local_discr ≡ e.session.local_discr
first_command-discr [] e e' i h = ground arith
first_command-discr (x ∷ l) e e' i h = ground arith

receive-discr :
    (choice : Choice) (e e' : Endpoint) (i : Input)
    → receive choice e ≡ some (i, e')
    → e'.session.local_discr ≡ e.session.local_discr
unfolding receive
receive-discr from_recv e e' i h = first_packet-discr e.recv_ch e e' i h
receive-discr from_ctrl e e' i h = first_command-discr e.ctrl_ch e e' i h
receive-discr from_tx_timer e e' i h = ground arith
receive-discr from_detect_timer e e' i h = ground arith

served-Keeps :
    (p : ℕ) (e : Endpoint) (s : Session) (m : Manager)
    → s.local_discr ≡ discr_at m p
    → Keeps m (served p e s m)
served-Keeps p e s m same =
    Keeps-trans
      (store-Keeps p (record (m.heap p) { endpoint = record e { session = s } }) m refl same refl)
      (SameStore-Keeps _ _ (refl, refl, refl, refl, omega arith, refl) refl)

pub serve-Keeps :
    (env : Env) (choice : Choice) (p : ℕ) (m : Manager) → Keeps m (serve env choice p m)
unfolding serve
serve-Keeps env choice p m = elim (Option-cases (receive choice (m.heap p).endpoint)) [
  | inl idle ↦ rw (idle, serve) (Keeps-refl m)
  | inr ((i, e), got) ↦
      rw (got, serve)
        (either-Keeps e.running m
          (served p e (step env i (with_channel m.raw_notify_ch e.session)) m) m
          (served-Keeps p e (step env i (with_channel m.raw_notify_ch e.session)) m (
            step-local_discr env i (with_channel m.raw_notify_ch e.session)
            ∙ receive-discr choice (m.heap p).endpoint e i got))
          (Keeps-refl m))
]
