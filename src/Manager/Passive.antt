-- ===== src/Manager/Passive.antt =====
-- Sessions that peers open: tryCreateUnsolicited of internal/bfd/manager_session.go.
use gobfd.Common.{
  ℕ, ◌+◌, ◌^◌, ◌<◌, ◌≡◌, ◌⊎◌, refl, sym, ap, ◌∙◌, List, [], ◌∷◌, none, some, true, false, not, ◌==◌,
  arith, inl, inr, ok, err, Result-cases,
}
use mathlib.Core.Path.{subst}
use gobfd.Assoc.{nat_key, lookup}
use gobfd.Packet.{ControlPacket}
use gobfd.Session.Endpoint.{recv_packet}
use gobfd.Unsolicited.{check_interface_policy, release}
use gobfd.Unsolicited.Reserve.{HasRoom, reserve_cases, release_lem}
use gobfd.Manager.{
  session_key, Manager, ManagerError, UnsolicitedState, Supply, create_session, policy_failed,
  key_eq_iff,
}
use gobfd.Manager.Consistent.{IsConsistent, discr_at}
use gobfd.Manager.Create.{create_session_outcome, Adds}
use gobfd.Manager.Demux.{
  PacketMeta, meta_key, with_count, after_create, reserved_by, try_create_unsolicited,
  demux_with_wire, demux_by_peer, peer_found, unsolicited_config, mark_session_unsolicited,
  lookup_by_peer,
}
use gobfd.Manager.Tables.{with_count-IsConsistent}

-- A session that a peer opened: the policy lets the peer in and there was room; the counter is
-- one higher; the session stands under the key of the packet, is marked, and holds the packet.
pub record Opens (pkt : ControlPacket) (meta : PacketMeta) (wire : List ℕ) (u : UnsolicitedState)
    (m m' : Manager) : Type 0 where
  pub let_in : check_interface_policy (some u.policy) meta.src_addr meta.if_name ≡ ok tt
  pub had_room : HasRoom u.policy u.session_count
  pub one_more : m'.unsolicited_state ≡ some (record u { session_count = u.session_count + 1 })
  pub stands : lookup (meta_key meta) m'.sessions_by_peer ≡ some m.next
  pub marked : (m'.heap m.next).unsolicited ≡ true
  pub holds : (m'.heap m.next).endpoint.recv_ch ≡ record { pkt = pkt; wire = wire } ∷ []
  pub others : (p : ℕ) → p < m.next → m'.heap p ≡ m.heap p

-- The counter is given back where the creation fails.
gives_back :
    (pkt : ControlPacket) (wire : List ℕ) (u : UnsolicitedState) (m m2 : Manager) (e : ManagerError)
    → m.unsolicited_state ≡ some u
    → m2 ≡ with_count (u.session_count + 1) u m
    → after_create pkt wire (m2, err e) ≡ (m, err e)
unfolding after_create
gives_back pkt wire u m m2 e there same =
    let raised = with_count (u.session_count + 1) u m in
    let back : release (u.session_count + 1) ≡ u.session_count =
      omega (arith, release_lem (u.session_count + 1)) in
    ap (λ x. after_create pkt wire (x, err e)) same
    ∙ ap (λ n. (with_count n u m, err e)) back
    ∙ ap (λ o. (record m { unsolicited_state = o }, err e)) (sym there)

-- What a successful creation behind a reservation becomes.
opens :
    (pkt : ControlPacket) (meta : PacketMeta) (wire : List ℕ) (u : UnsolicitedState)
    (m m2 : Manager) (discr : ℕ)
    → check_interface_policy (some u.policy) meta.src_addr meta.if_name ≡ ok tt
    → HasRoom u.policy u.session_count
    → Adds
        (unsolicited_config meta u.policy.session_defaults)
        (with_count (u.session_count + 1) u m)
        m2
        discr
    → Opens pkt meta wire u m (after_create pkt wire (m2, ok m.next)).0
unfolding after_create mark_session_unsolicited recv_packet
opens pkt meta wire u m m2 discr let_in room a =
    let found : lookup (discr_at m2 m.next) m2.sessions ≡ some m.next =
      ap (λ d. lookup d m2.sessions) a.named_so ∙ a.by_new_discr discr ∙ ground arith in
    rw (found, mark_session_unsolicited)
      (record {
        let_in = let_in;
        had_room = room;
        one_more = a.same_counter;
        stands =
            a.by_new_key (meta_key meta)
            ∙ ground (arith, key_eq_iff (meta_key meta) (meta_key meta));
        marked = ground arith;
        holds = ground (arith, a.no_packets);
        others = λ p h. ground (arith, a.others p h);
      })

passive :
    (supply : Supply) (pkt : ControlPacket) (meta : PacketMeta) (wire : List ℕ)
    (u : UnsolicitedState) (m : Manager)
    → IsConsistent m
    → m.unsolicited_state ≡ some u
    → m.has_unsolicited_sender ≡ true
    → u.session_count < 2 ^ 31
    → ((e : ManagerError) × (try_create_unsolicited supply pkt meta wire u m ≡ (m, err e)))
      ⊎ (((try_create_unsolicited supply pkt meta wire u m).1 ≡ ok tt)
          × Opens pkt meta wire u m (try_create_unsolicited supply pkt meta wire u m).0)
unfolding try_create_unsolicited reserved_by
passive supply pkt meta wire u m c there sender low =
    elim (reserve_cases u.policy meta.src_addr meta.if_name u.session_count low) [
      | inl (e, refused) ↦ inl (
        policy_failed e,
        ap (reserved_by supply pkt meta wire u m) refused
            ∙ ap (λ o. (record m { unsolicited_state = o }, err (policy_failed e))) (sym there),
      )
      | inr (taken, let_in, room) ↦
          let cfg = unsolicited_config meta u.policy.session_defaults in
          let raised = with_count (u.session_count + 1) u m in
          let made = create_session supply cfg raised in
          let out =
            create_session_outcome supply cfg raised made.0 made.1 (with_count-IsConsistent _ u m c)
              refl in
          let called : try_create_unsolicited supply pkt meta wire u m
              ≡ after_create pkt wire (made.0, made.1) =
            ap (reserved_by supply pkt meta wire u m) taken ∙ rw (sender, reserved_by) refl in
          elim (Result-cases made.1) [
            | inr (e, failed) ↦ inl (
              e,
              called
                  ∙ ap (λ r. after_create pkt wire (made.0, r)) failed
                  ∙ gives_back pkt wire u m made.0 e there (out.0 e failed),
            )
            | inl (p, worked) ↦
                let (at_next, valid, free, (discr, a)) = out.1 p worked in
                let ended : try_create_unsolicited supply pkt meta wire u m
                    ≡ after_create pkt wire (made.0, ok m.next) =
                  called ∙ ap (λ r. after_create pkt wire (made.0, r)) (worked ∙ ap ok at_next) in
                inr (
                  ap (λ x. x.1) ended,
                  subst (λ x. Opens pkt meta wire u m x.0) (sym ended)
                      (opens pkt meta wire u m made.0 discr let_in room a),
                )
          ]
    ]

pub to_passive :
    (supply : Supply) (pkt : ControlPacket) (meta : PacketMeta) (wire : List ℕ)
    (u : UnsolicitedState) (m : Manager)
    → m.unsolicited_state ≡ some u
    → pkt.your_discriminator ≡ 0
    → lookup (meta_key meta) m.sessions_by_peer ≡ none
    → demux_with_wire supply pkt meta wire m ≡ try_create_unsolicited supply pkt meta wire u m
unfolding demux_with_wire demux_by_peer peer_found lookup_by_peer
to_passive supply pkt meta wire u m there zero absent =
    let keyed : (not (pkt.your_discriminator == 0)) ≡ false = ground arith in
    rw (keyed, absent, there, peer_found) refl

-- With a policy, a sender and a counter that is not negative as an int32, a packet without a discriminator from a peer that has no session
-- either fails and leaves the manager exactly as it was, the counter of unsolicited sessions and
-- the discriminators included; or it opens one session: the policy lets the peer in and the limit
-- leaves room, the counter goes up by one, and the new entry stands under the packet's addresses
-- and interface, is marked as unsolicited and holds the packet, with all older entries unchanged.
pub demux_takes_peer :
    (supply : Supply) (pkt : ControlPacket) (meta : PacketMeta) (wire : List ℕ)
    (u : UnsolicitedState) (m : Manager)
    → IsConsistent m
    → m.unsolicited_state ≡ some u
    → m.has_unsolicited_sender ≡ true
    → u.session_count < 2 ^ 31
    → pkt.your_discriminator ≡ 0
    → lookup (meta_key meta) m.sessions_by_peer ≡ none
    → ((e : ManagerError) × (demux_with_wire supply pkt meta wire m ≡ (m, err e)))
      ⊎ (((demux_with_wire supply pkt meta wire m).1 ≡ ok tt)
          × Opens pkt meta wire u m (demux_with_wire supply pkt meta wire m).0)
demux_takes_peer supply pkt meta wire u m c there sender low zero absent =
    rw (to_passive supply pkt meta wire u m there zero absent)
      (passive supply pkt meta wire u m c there sender low)
