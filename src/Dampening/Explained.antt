-- ===== src/Dampening/Explained.antt =====
-- Where the answers of internal/gobgp/dampening.go come from.
use gobfd.Common.{
  ℕ, ◌≡◌, ◌⊎◌, ap, ◌∙◌, sym, arith, List, [], ◌∷◌, some, Bool, true, false, inl, inr, Option-cases,
}
use gobfd.Assoc.{nat_key, lookup, lookup-insert, lookup-delete}
use gobfd.Dampening.{
  Floats, DampeningConfig, PeerPenalty, Dampener, new_dampener, lasted, get_or_create_peer,
  peer_or_new, decay_penalty, unsuppress, after_flap, flapped, should_suppress, after_up, up_of,
  should_suppress_up, reset, Call, flap, up, resets, call,
}

module _ (fl : Floats) (cfg : DampeningConfig) where
  decay_keeps :
      (now : ℕ) (pp : PeerPenalty)
      → ((decay_penalty fl cfg now pp).suppressed ≡ pp.suppressed)
        × ((decay_penalty fl cfg now pp).suppressed_since ≡ pp.suppressed_since)
  unfolding decay_penalty
  decay_keeps now pp = ground arith

  -- An answer about a peer: it is the peer's mark; a marked peer was marked before and has not been
  -- for the longest time, or is marked now by a flap.
  abbrev Answers : ℕ → PeerPenalty → PeerPenalty × Bool → Type 0
  Answers now pp r =
      (r.1 ≡ r.0.suppressed)
      × (r.0.suppressed ≡ true
          → ((pp.suppressed ≡ true)
              × (r.0.suppressed_since ≡ pp.suppressed_since)
              × (lasted now pp.suppressed_since cfg.max_suppress_time ≡ false))
            ⊎ ((r.0.suppressed_since ≡ now) × (pp.suppressed ≡ false)))

  flap_step :
      (now : ℕ) (pp : PeerPenalty)
      → Answers now pp (after_flap fl cfg now (flapped fl cfg now (decay_penalty fl cfg now pp)))
  unfolding after_flap unsuppress
  flap_step now pp = ground (arith, decay_keeps now pp)

  up_step :
      (now : ℕ) (pp : PeerPenalty)
      → let r = after_up fl cfg now (decay_penalty fl cfg now pp) in
        (r.1 ≡ r.0.suppressed)
        × (r.0.suppressed ≡ true
            → (pp.suppressed ≡ true)
              × (r.0.suppressed_since ≡ pp.suppressed_since)
              × (lasted now pp.suppressed_since cfg.max_suppress_time ≡ false))
  unfolding after_up unsuppress
  up_step now pp = ground (arith, decay_keeps now pp)

  -- The calls made, the latest first, each with its time.
  abbrev pub History : Type 0
  History = List (Call × ℕ)

  unfoldable pub replay : History → Dampener
  unfolding call new_dampener
  replay [] = new_dampener
  replay ((c, now) ∷ before) = (call fl cfg c now (replay before)).0

  -- A flap of the peer at the time is among the calls.
  abbrev pub Flapped : ℕ → ℕ → History → Type 0
  Flapped addr s [] = ⊥
  Flapped addr s ((flap a, now) ∷ before) = ((a ≡ addr) × (now ≡ s)) ⊎ Flapped addr s before
  Flapped addr s ((up a, now) ∷ before) = Flapped addr s before
  Flapped addr s ((resets a, now) ∷ before) = Flapped addr s before

  abbrev Explained : History → ℕ → Type 0
  Explained h addr =
      (pp : PeerPenalty)
      → lookup addr (replay h).peers ≡ some pp
      → pp.suppressed ≡ true
      → Flapped addr pp.suppressed_since h

  cause_of_mark : (h : History) (addr : ℕ) → Explained h addr
  unfolding replay new_dampener lookup call should_suppress get_or_create_peer should_suppress_up
      up_of reset
  cause_of_mark [] addr pp there marked = cc
  cause_of_mark ((flap a, now) ∷ before) addr pp there marked =
      let d = replay before in
      elim (Option-cases (lookup a d.peers)) [
        | inl fresh ↦ ground (
          arith,
          fresh,
          lookup-insert a addr
              (after_flap fl cfg now (
                flapped fl cfg now
                  (decay_penalty fl cfg now (get_or_create_peer fl cfg a now d)))).0
              d.peers,
          flap_step now (get_or_create_peer fl cfg a now d),
          cause_of_mark before addr pp,
        )
        | inr (old, there_before) ↦
            let found : get_or_create_peer fl cfg a now d ≡ old =
              ap (peer_or_new fl.zero_penalty now) there_before in
            ground (
              arith,
              found,
              there_before,
              lookup-insert a addr
                  (after_flap fl cfg now (
                    flapped fl cfg now
                      (decay_penalty fl cfg now (get_or_create_peer fl cfg a now d)))).0
                  d.peers,
              flap_step now (get_or_create_peer fl cfg a now d),
              cause_of_mark before addr old,
              cause_of_mark before addr pp,
            )
      ]
  cause_of_mark ((up a, now) ∷ before) addr pp there marked =
      let d = replay before in
      elim (Option-cases (lookup a d.peers)) [
        | inl fresh ↦ ground (arith, fresh, cause_of_mark before addr pp)
        | inr (old, there_before) ↦ ground (
          arith,
          there_before,
          lookup-insert a addr (after_up fl cfg now (decay_penalty fl cfg now old)).0 d.peers,
          up_step now old,
          cause_of_mark before addr old,
          cause_of_mark before addr pp,
        )
      ]
  cause_of_mark ((resets a, now) ∷ before) addr pp there marked =
      ground (arith, lookup-delete a addr (replay before).peers, cause_of_mark before addr pp)

  -- What an entry that has been marked for less than the longest time shows.
  since_flap :
      (h : History) (addr now : ℕ) (pp : PeerPenalty)
      → lookup addr (replay h).peers ≡ some pp
      → pp.suppressed ≡ true
      → lasted now pp.suppressed_since cfg.max_suppress_time ≡ false
      → (s : ℕ) × Flapped addr s h × (lasted now s cfg.max_suppress_time ≡ false)
  since_flap h addr now pp there marked within =
      (pp.suppressed_since, cause_of_mark h addr pp there marked, within)

  -- A flap now brings the penalty to the threshold.
  abbrev pub Reaches : ℕ → PeerPenalty → Type 0
  Reaches now pp =
      fl.at_least (fl.plus_one (decay_penalty fl cfg now pp).penalty) cfg.suppress_threshold ≡ true

  flap_true :
      (now : ℕ) (pp : PeerPenalty)
      → (after_flap fl cfg now (flapped fl cfg now (decay_penalty fl cfg now pp))).1 ≡ true
      → Reaches now pp
        ⊎ ((pp.suppressed ≡ true) × (lasted now pp.suppressed_since cfg.max_suppress_time ≡ false))
  unfolding after_flap
  flap_true now pp = ground (arith, decay_keeps now pp)

  answer_flap :
      (h : History) (addr now : ℕ)
      → (should_suppress fl cfg addr now (replay h)).1 ≡ true
      → (cfg.enabled ≡ true)
        × ((after_flap fl cfg now (
              flapped fl cfg now
                (decay_penalty fl cfg now (get_or_create_peer fl cfg addr now (replay h))))).1
            ≡ true)
  unfolding should_suppress
  answer_flap h addr now answered = ground arith

  answer_up :
      (h : History) (addr now : ℕ)
      → (should_suppress_up fl cfg addr now (replay h)).1 ≡ true
      → (cfg.enabled ≡ true)
        × ((pp : PeerPenalty) × (lookup addr (replay h).peers ≡ some pp)
            × ((after_up fl cfg now (decay_penalty fl cfg now pp)).1 ≡ true))
  unfolding should_suppress_up up_of
  answer_up h addr now answered = elim (Option-cases (lookup addr (replay h).peers)) [
    | inl absent ↦ absurd (ground (arith, absent))
    | inr (pp, there) ↦ (ground arith, (pp, there, ground (arith, there)))
  ]

  -- An answer that a peer is suppressed has a cause: dampening is enabled, and either
  -- the call is itself a flap that brings the decayed penalty to the threshold, or the peer flapped
  -- in an earlier call and the longest suppression has not passed since. The calls before it may be
  -- any, for any peers, from a new dampener on.
  pub suppressed_by_flap :
      (h : History) (addr now : ℕ)
      → ((should_suppress fl cfg addr now (replay h)).1 ≡ true
          → (cfg.enabled ≡ true)
            × (Reaches now (get_or_create_peer fl cfg addr now (replay h))
                ⊎ ((s : ℕ) × Flapped addr s h × (lasted now s cfg.max_suppress_time ≡ false))))
        × ((should_suppress_up fl cfg addr now (replay h)).1 ≡ true
            → (cfg.enabled ≡ true)
              × ((s : ℕ) × Flapped addr s h × (lasted now s cfg.max_suppress_time ≡ false)))
  unfolding get_or_create_peer
  suppressed_by_flap h addr now = (
    λ answered.
        let (on, r) = answer_flap h addr now answered in
        let entry = get_or_create_peer fl cfg addr now (replay h) in
        (
          on,
          elim (flap_true now entry r) [
            | inl reached ↦ inl reached
            | inr (marked, within) ↦ elim (Option-cases (lookup addr (replay h).peers)) [
              | inl absent ↦ absurd (ground (arith, absent))
              | inr (pp, there) ↦
                  inr
                    (since_flap h addr now pp there (ground (arith, there)) (ground (arith, there)))
            ]
          ],
        ),
    λ answered.
        let (on, (pp, there, r)) = answer_up h addr now answered in
        let a = up_step now pp in
        let (marked, same, within) = a.1 (sym a.0 ∙ r) in
        (on, since_flap h addr now pp there marked within),
  )
