-- ===== src/Manager/Leak.antt =====
-- tryCreateUnsolicited of internal/bfd/manager_session.go in a manager that has a policy and no
-- sender.
use gobfd.Common.{
  ℕ, zero, suc, ◌+◌, ◌^◌, ◌<◌, ◌≤◌, ◌≡◌, refl, ap, ◌∙◌, none, some, false, arith, List, [], ◌∷◌,
  Result, replicate, sym, ok, err,
}
use mathlib.Core.Path.{subst}
use gobfd.Duration.{pos_part, not_positive}
use gobfd.Assoc.{nat_key, lookup}
use gobfd.Packet.{ControlPacket}
use gobfd.Unsolicited.{
  check_interface_policy, reserve, UnsolicitedPolicy, reserve_turn, unsolicited_max_sessions,
}
use gobfd.Netip.{Addr}
use gobfd.Manager.{
  session_key, Manager, ManagerError, UnsolicitedState, Supply, no_unsolicited_sender,
  policy_failed,
}
use gobfd.Manager.Demux.{
  PacketMeta, meta_key, with_count, reserved_by, try_create_unsolicited, demux_with_wire,
}
use gobfd.Manager.Passive.{to_passive}

admitted :
    (policy : UnsolicitedPolicy) (src : Addr) (name count : ℕ)
    → check_interface_policy (some policy) src name ≡ ok tt
    → not_positive policy.max_sessions ≡ false
    → count < 2 ^ 31
    → (count < pos_part policy.max_sessions
        → reserve (some policy) src name count ≡ (count + 1, ok tt))
      × (pos_part policy.max_sessions ≤ count
          → reserve (some policy) src name count ≡ (count, err unsolicited_max_sessions))
unfolding reserve reserve_turn
admitted policy src name count passed limited low =
    (λ h. rw (passed, reserve) (ground arith), λ h. rw (passed, reserve) (ground arith))

-- The same packet, as often as the number says, and the answer to each.
unfoldable pub flood :
    ℕ
    → Supply
    → ControlPacket
    → PacketMeta
    → List ℕ
    → Manager
    → Manager × List (Result ManagerError (Unit {0}))
flood zero supply pkt meta wire m = (m, [])
flood (suc n) supply pkt meta wire m =
    let (m', answer) = demux_with_wire supply pkt meta wire m in
    let (last, answers) = flood n supply pkt meta wire m' in (last, answer ∷ answers)

module _ (supply : Supply) (pkt : ControlPacket) (meta : PacketMeta) (wire : List ℕ)
    (policy : UnsolicitedPolicy) (zero_ : pkt.your_discriminator ≡ 0)
    (let_in : check_interface_policy (some policy) meta.src_addr meta.if_name ≡ ok tt)
    (limited : not_positive policy.max_sessions ≡ false) where
  abbrev holding : ℕ → UnsolicitedState
  holding n = record { policy = policy; session_count = n }

  one_leaks :
      (n : ℕ) (m : Manager)
      → m.unsolicited_state ≡ some (holding n)
      → m.has_unsolicited_sender ≡ false
      → lookup (meta_key meta) m.sessions_by_peer ≡ none
      → n < pos_part policy.max_sessions
      → n < 2 ^ 31
      → demux_with_wire supply pkt meta wire m
        ≡ (with_count (n + 1) (holding n) m, err no_unsolicited_sender)
  unfolding try_create_unsolicited reserved_by
  one_leaks n m there sender absent room low =
      to_passive supply pkt meta wire (holding n) m there zero_ absent
      ∙ ap (reserved_by supply pkt meta wire (holding n) m)
          ((admitted policy meta.src_addr meta.if_name n let_in limited low).0 room)
      ∙ rw (sender, reserved_by) refl

  -- Each of the packets is refused for the sender that is missing.
  abbrev pub refusals : ℕ → List (Result ManagerError (Unit {0}))
  refusals k = replicate k (err no_unsolicited_sender)

  flooded :
      (k n : ℕ) (m : Manager)
      → m.unsolicited_state ≡ some (holding n)
      → m.has_unsolicited_sender ≡ false
      → lookup (meta_key meta) m.sessions_by_peer ≡ none
      → n + k ≤ pos_part policy.max_sessions
      → n + k < 2 ^ 31
      → flood k supply pkt meta wire m
        ≡ (record m { unsolicited_state = some (holding (n + k)) }, refusals k)
  unfolding flood
  flooded zero n m there sender absent room low =
      ap (λ o. (record m { unsolicited_state = o }, []))
        (there ∙ ap (λ x. some (holding x)) (omega arith))
  flooded (suc k) n m there sender absent room low =
      ap (λ x. let r = flood k supply pkt meta wire x.0 in (r.0, x.1 ∷ r.1))
        (one_leaks n m there sender absent (omega arith) (omega arith))
      ∙ ap (λ r. (r.0, err no_unsolicited_sender ∷ r.1))
          (flooded k (n + 1) (with_count (n + 1) (holding n) m) refl sender absent (omega arith)
            (omega arith))
      ∙ ap (λ x. (record m { unsolicited_state = some (holding x) }, refusals (suc k)))
          (omega arith)

  -- In a manager with a policy, a limit and no sender, a peer that the policy lets in and that has
  -- no session fills the counter with packets whose Your Discriminator is zero: `k` such packets,
  -- as far as the limit and an int32 reach, are each refused for the missing sender, raise the
  -- counter by `k` and change nothing else. Once the counter has reached the limit, any packet
  -- with Your Discriminator zero from any peer that has no session and that the policy lets in is
  -- refused for the limit.
  pub no_sender_leaks :
      (k n : ℕ) (m : Manager)
      → m.unsolicited_state ≡ some (holding n)
      → m.has_unsolicited_sender ≡ false
      → lookup (meta_key meta) m.sessions_by_peer ≡ none
      → n + k ≤ pos_part policy.max_sessions
      → n + k < 2 ^ 31
      → (flood k supply pkt meta wire m
          ≡ (record m { unsolicited_state = some (holding (n + k)) }, refusals k))
        × ((other : ControlPacket) (from : PacketMeta) (bytes : List ℕ)
            → n + k ≡ pos_part policy.max_sessions
            → other.your_discriminator ≡ 0
            → lookup (meta_key from) m.sessions_by_peer ≡ none
            → check_interface_policy (some policy) from.src_addr from.if_name ≡ ok tt
            → demux_with_wire supply other from bytes (flood k supply pkt meta wire m).0
              ≡ ((flood k supply pkt meta wire m).0, err (policy_failed unsolicited_max_sessions)))
  unfolding try_create_unsolicited reserved_by
  no_sender_leaks k n m there sender absent room low =
      let filled = flooded k n m there sender absent room low in
      let full = record m { unsolicited_state = some (holding (n + k)) } in
      (
        filled,
        λ other from bytes at_limit zero_other unknown passed.
            subst
              (λ x.
                demux_with_wire supply other from bytes x
                ≡ (x, err (policy_failed unsolicited_max_sessions)))
              (sym (ap (λ r. r.0) filled))
              (to_passive supply other from bytes (holding (n + k)) full refl zero_other unknown
                ∙ ap (reserved_by supply other from bytes (holding (n + k)) full) (
                    (admitted policy from.src_addr from.if_name (n + k) passed limited low).1
                      (omega arith))),
      )
