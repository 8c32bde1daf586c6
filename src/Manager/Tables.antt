-- ===== src/Manager/Tables.antt =====
-- Operations of the manager that change its tables (internal/bfd/manager.go, manager_session.go and
-- manager_echo.go), on the consistency of the tables.
use gobfd.Common.{
  ℕ, refl, List, [], Option, none, some, Bool, true, false, not, ◌==◌, if◌then◌else◌, arith, inl,
  inr, Option-cases, Bool-cases, Result, ok, err,
}
use gobfd.Assoc.{nat_key, lookup}
use gobfd.Discriminator.{contains}
use gobfd.Packet.{ControlPacket}
use gobfd.Session.Endpoint.{recv_packet}
use gobfd.Unsolicited.{UnsolicitedError}
use gobfd.Manager.{session_key, UnsolicitedState, Manager, ManagerError, Supply}
use gobfd.Manager.Consistent.{IsConsistent, destroy-IsConsistent}
use gobfd.Manager.Create.{create-IsConsistent}
use gobfd.Manager.Kept.{
  SameStore-Keeps, SameTables-IsConsistent, SameTables-trans, SameStore-SameTables,
  Keeps-IsConsistent, recv-Keeps, mark-SameTables, deliver-Keeps,
}
use gobfd.Manager.Demux.{
  PacketMeta, with_count, after_create, reserved_by, try_create_unsolicited, peer_found,
  demux_by_peer, demux_by_discr, demux_with_wire, demux, mark_session_unsolicited,
  unsolicited_config, at_entry,
}
use gobfd.Manager.Dispatch.{cleanup_unsolicited_session, fire_cleanup, is_stale, drop_one}

pub with_count-IsConsistent :
    (n : ℕ) (u : UnsolicitedState) (m : Manager) → IsConsistent m → IsConsistent (with_count n u m)
with_count-IsConsistent n u m =
    SameTables-IsConsistent m (with_count n u m)
      (SameStore-SameTables _ _ (refl, refl, refl, refl, omega arith, refl))

after_create-IsConsistent :
    (pkt : ControlPacket) (wire : List ℕ) (m : Manager) (r : Result ManagerError ℕ)
    → IsConsistent m
    → IsConsistent (after_create pkt wire (m, r)).0
unfolding after_create
after_create-IsConsistent pkt wire m (err e) c = elim (Option-cases m.unsolicited_state) [
  | inl absent ↦ rw (absent, after_create) c
  | inr (u, there) ↦ rw (there, after_create) (with_count-IsConsistent _ u m c)
]
after_create-IsConsistent pkt wire m (ok p) c =
    let d = (m.heap p).endpoint.session.local_discr in
    SameTables-IsConsistent m _
      (SameTables-trans (mark-SameTables d m)
        (recv-Keeps p pkt wire (mark_session_unsolicited d m)).tables)
      c

reserved-IsConsistent :
    (supply : Supply) (pkt : ControlPacket) (meta : PacketMeta) (wire : List ℕ)
    (u : UnsolicitedState) (m : Manager) (n : ℕ) (r : Result UnsolicitedError (Unit {0}))
    → IsConsistent m
    → IsConsistent (reserved_by supply pkt meta wire u m (n, r)).0
unfolding reserved_by
reserved-IsConsistent supply pkt meta wire u m n (err e) c = with_count-IsConsistent n u m c
reserved-IsConsistent supply pkt meta wire u m n (ok passed) c =
    elim (Bool-cases (not m.has_unsolicited_sender)) [
      | inl missing ↦ rw (missing, reserved_by) (with_count-IsConsistent n u m c)
      | inr there ↦
          rw (there, reserved_by)
            (after_create-IsConsistent pkt wire _ _ (
              create-IsConsistent supply (unsolicited_config meta u.policy.session_defaults)
                (with_count n u m) (with_count-IsConsistent n u m c)))
    ]

peer_found-IsConsistent :
    (supply : Supply) (pkt : ControlPacket) (meta : PacketMeta) (wire : List ℕ) (o : Option ℕ)
    (u : Option UnsolicitedState) (m : Manager)
    → IsConsistent m
    → IsConsistent (peer_found supply pkt meta wire o u m).0
unfolding peer_found try_create_unsolicited
peer_found-IsConsistent supply pkt meta wire (some p) u m c =
    Keeps-IsConsistent m (at_entry p (recv_packet pkt wire) m) (recv-Keeps p pkt wire m) c
peer_found-IsConsistent supply pkt meta wire none none m c = c
peer_found-IsConsistent supply pkt meta wire none (some u) m c =
    reserved-IsConsistent supply pkt meta wire u m _ _ c

either-IsConsistent :
    (b : Bool) (x y : Manager) → IsConsistent x → IsConsistent y → IsConsistent (if b then x else y)
either-IsConsistent true x y c d = c
either-IsConsistent false x y c d = d

pub demux-IsConsistent :
    (pkt : ControlPacket) (meta : PacketMeta) (m : Manager)
    → IsConsistent m
    → IsConsistent (demux pkt meta m).0
unfolding demux
demux-IsConsistent pkt meta m c = elim (Bool-cases (not (pkt.your_discriminator == 0))) [
  | inl named ↦ rw (named, demux) (Keeps-IsConsistent m _ (deliver-Keeps _ pkt [] m) c)
  | inr keyed ↦ rw (keyed, demux) (Keeps-IsConsistent m _ (deliver-Keeps _ pkt [] m) c)
]

pub demux_with_wire-IsConsistent :
    (supply : Supply) (pkt : ControlPacket) (meta : PacketMeta) (wire : List ℕ) (m : Manager)
    → IsConsistent m
    → IsConsistent (demux_with_wire supply pkt meta wire m).0
unfolding demux_with_wire demux_by_peer demux_by_discr
demux_with_wire-IsConsistent supply pkt meta wire m c =
    elim (Bool-cases (not (pkt.your_discriminator == 0))) [
      | inl named ↦
          rw (named, demux_with_wire) (Keeps-IsConsistent m _ (deliver-Keeps _ pkt wire m) c)
      | inr keyed ↦
          rw (keyed, demux_with_wire)
            (peer_found-IsConsistent supply pkt meta wire _ m.unsolicited_state m c)
    ]

pub cleanup-IsConsistent : (d : ℕ) (m : Manager) → IsConsistent m → IsConsistent (fire_cleanup d m)
unfolding fire_cleanup cleanup_unsolicited_session
cleanup-IsConsistent d m c =
    let waiting = record m { cleanups = drop_one d m.cleanups } in
    let c' : IsConsistent waiting =
      Keeps-IsConsistent m waiting
        (SameStore-Keeps _ _ (refl, refl, refl, refl, omega arith, refl) refl) c in
    either-IsConsistent (contains m.cleanups d) _ m
      (either-IsConsistent (is_stale (lookup d m.sessions) m.heap) _ waiting
        (destroy-IsConsistent d waiting c') c')
      c
