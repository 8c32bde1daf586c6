-- ===== src/Manager/Routing.antt =====
-- Where DemuxWithWire of internal/bfd/manager_session.go delivers a packet.
use gobfd.Common.{
  ℕ, ◌≡◌, ◌≢◌, ◌⊎◌, refl, sym, ap, ◌∙◌, List, [], ◌∷◌, ◌++◌, Option, none, some, not, ◌==◌, ltb,
  if◌then◌else◌, arith, inl, inr, length, Bool-cases, Option-cases, ok, err,
}
use mathlib.Core.Path.{subst}
use gobfd.Assoc.{nat_key, lookup}
use gobfd.Packet.{ControlPacket}
use gobfd.Session.Endpoint.{recv_packet, recv_ch_size}
use gobfd.Manager.{session_key, Manager, demux_no_match, Supply}
use gobfd.Manager.Consistent.{IsConsistent, discr_at}
use gobfd.Manager.Demux.{
  PacketMeta, meta_key, deliver, demux_with_wire, demux_by_discr, demux_by_peer, peer_found,
  lookup_by_discriminator, lookup_by_peer, at_entry,
}

-- The packet went into the channel of the entry at `p`, unless sixteen packets wait there, and
-- nothing else changed.
pub record Delivered (pkt : ControlPacket) (wire : List ℕ) (p : ℕ) (m m' : Manager) : Type 0 where
  pub only_there : m' ≡ record m { heap = m'.heap }
  pub others_kept : (q : ℕ) → q ≢ p → m'.heap q ≡ m.heap q
  pub entry_kept :
      (m'.heap p).endpoint ≡ record (m.heap p).endpoint { recv_ch = (m'.heap p).endpoint.recv_ch }
  pub queued : (m'.heap p).endpoint.recv_ch ≡ (
      if ltb (length (m.heap p).endpoint.recv_ch) recv_ch_size
      then (m.heap p).endpoint.recv_ch ++ (record { pkt = pkt; wire = wire } ∷ [])
      else (m.heap p).endpoint.recv_ch)

pub recv-Delivered :
    (pkt : ControlPacket) (wire : List ℕ) (p : ℕ) (m : Manager)
    → Delivered pkt wire p m (at_entry p (recv_packet pkt wire) m)
unfolding recv_packet
recv-Delivered pkt wire p m = record {
  only_there = refl;
  others_kept = λ q n. ground arith;
  entry_kept = ground arith;
  queued = ground arith;
}

-- What the lookups of the code find.
abbrev IsFor : ControlPacket → PacketMeta → Manager → ℕ → Type 0
IsFor pkt meta m p =
    (pkt.your_discriminator ≢ 0
      → (lookup pkt.your_discriminator m.sessions ≡ some p)
        × (discr_at m p ≡ pkt.your_discriminator))
    × (pkt.your_discriminator ≡ 0
        → (lookup (meta_key meta) m.sessions_by_peer ≡ some p) × ((m.heap p).key ≡ meta_key meta))

abbrev target : ControlPacket → PacketMeta → Manager → Option ℕ
target pkt meta m =
    if not (pkt.your_discriminator == 0)
    then lookup pkt.your_discriminator m.sessions
    else lookup (meta_key meta) m.sessions_by_peer

abbrev Routed : Supply → ControlPacket → PacketMeta → List ℕ → Manager → ℕ → Type 0
Routed supply pkt meta wire m p =
    IsFor pkt meta m p
    × Delivered pkt wire p m (demux_with_wire supply pkt meta wire m).0
    × ((demux_with_wire supply pkt meta wire m).1 ≡ ok tt)

routed :
    (supply : Supply) (pkt : ControlPacket) (meta : PacketMeta) (wire : List ℕ) (m : Manager)
    (p : ℕ)
    → IsConsistent m
    → target pkt meta m ≡ some p
    → Routed supply pkt meta wire m p
unfolding demux_with_wire demux_by_discr demux_by_peer peer_found deliver lookup_by_discriminator
    lookup_by_peer
routed supply pkt meta wire m p c found = elim (Bool-cases (pkt.your_discriminator == 0)) [
  | inr named ↦
      let there : lookup pkt.your_discriminator m.sessions ≡ some p = ground (arith, found) in
      (
        (λ z. (there, (c.by_discr pkt.your_discriminator p there).0), λ z. absurd (ground arith)),
        rw (named, there, demux_with_wire, deliver) (recv-Delivered pkt wire p m),
        rw (named, there, demux_with_wire, deliver) refl,
      )
  | inl zero ↦
      let there : lookup (meta_key meta) m.sessions_by_peer ≡ some p = ground (arith, found) in
      (
        (λ z. absurd (ground arith), λ z. (there, (c.by_peer (meta_key meta) p there).0)),
        rw (zero, there, demux_with_wire, peer_found) (recv-Delivered pkt wire p m),
        rw (zero, there, demux_with_wire, peer_found) refl,
      )
]

refused :
    (supply : Supply) (pkt : ControlPacket) (meta : PacketMeta) (wire : List ℕ) (m : Manager)
    → target pkt meta m ≡ none
    → (pkt.your_discriminator ≢ 0) ⊎ (m.unsolicited_state ≡ none)
    → demux_with_wire supply pkt meta wire m ≡ (m, err demux_no_match)
unfolding demux_with_wire demux_by_discr demux_by_peer peer_found deliver lookup_by_discriminator
    lookup_by_peer
refused supply pkt meta wire m absent why = elim (Bool-cases (pkt.your_discriminator == 0)) [
  | inr named ↦
      let none_ : lookup pkt.your_discriminator m.sessions ≡ none = ground (arith, absent) in
      rw (named, none_, demux_with_wire, deliver) refl
  | inl zero ↦
      let none_ : lookup (meta_key meta) m.sessions_by_peer ≡ none = ground (arith, absent) in
      let off : m.unsolicited_state ≡ none = ground (arith, why) in
      rw (zero, none_, off, demux_with_wire, peer_found) refl
]

-- The entry is in the table of sessions.
abbrev pub IsRegistered : Manager → ℕ → Type 0
IsRegistered m p = (d : ℕ) × (lookup d m.sessions ≡ some p)

-- A packet is meant for an entry: its Your Discriminator is the discriminator of the entry's session
-- or, where it is zero, the entry is kept for the source of the packet as the peer, for its
-- destination as the local address and for the interface that it came in on.
pub record IsMeant (pkt : ControlPacket) (meta : PacketMeta) (m : Manager) (p : ℕ) : Type 0 where
  pub by_name : pkt.your_discriminator ≢ 0 → discr_at m p ≡ pkt.your_discriminator
  pub peer_is_source : pkt.your_discriminator ≡ 0 → (m.heap p).key.key_peer_addr ≡ meta.src_addr
  pub local_is_destination :
      pkt.your_discriminator ≡ 0 → (m.heap p).key.key_local_addr ≡ meta.dst_addr
  pub same_interface : pkt.your_discriminator ≡ 0 → (m.heap p).key.key_if_name ≡ meta.if_name

target_of :
    (pkt : ControlPacket) (meta : PacketMeta) (m : Manager) (p : ℕ)
    → IsConsistent m
    → IsRegistered m p
    → IsMeant pkt meta m p
    → target pkt meta m ≡ some p
target_of pkt meta m p c (d, there) meant =
    let (named, keyed, below, set) = c.by_discr d p there in
    elim (Bool-cases (pkt.your_discriminator == 0)) [
      | inr other ↦
          let mine : d ≡ pkt.your_discriminator = sym named ∙ meant.by_name (ground arith) in
          rw other (subst (λ e. lookup e m.sessions ≡ some p) mine there)
      | inl zero ↦
          let z : pkt.your_discriminator ≡ 0 = ground arith in
          let same : (m.heap p).key ≡ meta_key meta = λ i. record {
            key_peer_addr = meant.peer_is_source z i;
            key_local_addr = meant.local_is_destination z i;
            key_if_name = meant.same_interface z i;
          } in
          rw zero (subst (λ k. lookup k m.sessions_by_peer ≡ some p) same keyed)
    ]

found-IsMeant :
    (pkt : ControlPacket) (meta : PacketMeta) (m : Manager) (p : ℕ)
    → IsConsistent m
    → IsFor pkt meta m p
    → IsRegistered m p × IsMeant pkt meta m p
found-IsMeant pkt meta m p c (named, keyed) = (
  registered,
  record {
    by_name = λ n. (named n).1;
    peer_is_source = λ z. ap (λ k. k.key_peer_addr) (keyed z).1;
    local_is_destination = λ z. ap (λ k. k.key_local_addr) (keyed z).1;
    same_interface = λ z. ap (λ k. k.key_if_name) (keyed z).1;
  },
)
  where
    registered : IsRegistered m p
    registered = elim (Bool-cases (pkt.your_discriminator == 0)) [
      | inr other ↦ (pkt.your_discriminator, (named (ground arith)).0)
      | inl zero ↦ (discr_at m p, (c.by_peer (meta_key meta) p (keyed (ground arith)).0).1)
    ]

-- In a consistent manager a packet goes to the one registered entry that it is meant for: by its
-- Your Discriminator, or, where that is zero, by its source, its destination and the interface that
-- it came in on. It joins the packets that wait in the entry's channel, or is dropped where sixteen
-- wait there, and nothing else changes. A packet with Your Discriminator not zero that is meant
-- for no entry is refused and changes nothing, whoever sent it; so is one with discriminator zero
-- that is meant for no entry, where no unsolicited policy is set.
pub demux_with_wire_routes :
    (supply : Supply) (pkt : ControlPacket) (meta : PacketMeta) (wire : List ℕ) (m : Manager)
    → IsConsistent m
    → ((p : ℕ)
        → IsRegistered m p
        → IsMeant pkt meta m p
        → Delivered pkt wire p m (demux_with_wire supply pkt meta wire m).0
          × ((demux_with_wire supply pkt meta wire m).1 ≡ ok tt))
      × (((p : ℕ) → IsRegistered m p → IsMeant pkt meta m p → ⊥)
          → (pkt.your_discriminator ≢ 0) ⊎ (m.unsolicited_state ≡ none)
          → demux_with_wire supply pkt meta wire m ≡ (m, err demux_no_match))
demux_with_wire_routes supply pkt meta wire m c = (
  λ p there meant.
      let (found, delivered, accepted) =
        routed supply pkt meta wire m p c (target_of pkt meta m p c there meant) in
      (delivered, accepted),
  λ nobody. elim (Option-cases (target pkt meta m)) [
    | inl absent ↦ refused supply pkt meta wire m absent
    | inr (p, found) ↦
        let (there, meant) =
          found-IsMeant pkt meta m p c (routed supply pkt meta wire m p c found).0 in
        absurd (nobody p there meant)
  ],
)
