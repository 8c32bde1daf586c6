-- ===== src/Overlay/Strip.antt =====
-- BuildInnerPacket and StripInnerPacket of internal/netio/overlay_inner.go together.
use gobfd.Common.{ℕ, ◌+◌, ◌^◌, ◌<◌, ◌≡◌, List, some, arith, length, ok}
use gobfd.Netip.{Addr}
use gobfd.Overlay.Inner.{build_inner_packet, strip_inner_packet, inner_packet}
use gobfd.Overlay.Checksum.{ipv4_header_checksum_verifies}

-- An IPv4 address.
pub record IsV4 (addr : Addr) : Type 0 where
  pub four_bytes : addr.bit_len ≡ 32
  pub value_fits : addr.value < 2 ^ 32
  pub no_zone : addr.zone ≡ 0

stripped :
    (payload : List ℕ) (src dst : Addr) (src_port csum : ℕ)
    → IsV4 src
    → IsV4 dst
    → strip_inner_packet (inner_packet payload src dst src_port csum)
      ≡ ok (record { bfd_payload = payload; src_ip = src; dst_ip = dst })
unfolding strip_inner_packet
stripped payload src dst src_port csum s d =
    ground (arith, s.four_bytes, s.value_fits, s.no_zone, d.four_bytes, d.value_fits, d.no_zone)

-- Between IPv4 addresses a packet is always built, 42 bytes longer than its payload, and stripping
-- it gives back the payload and both addresses.
pub strip-build_inner_packet :
    (payload : List ℕ) (src dst : Addr) (src_port : ℕ)
    → IsV4 src
    → IsV4 dst
    → (packet : List ℕ) × (build_inner_packet payload src dst src_port ≡ ok (some packet))
      × (length packet ≡ 42 + length payload)
      × (strip_inner_packet packet
          ≡ ok (record { bfd_payload = payload; src_ip = src; dst_ip = dst }))
unfolding build_inner_packet
strip-build_inner_packet payload src dst src_port s d =
    let (c, made, fits, _) = ipv4_header_checksum_verifies (length payload) src dst in
    (
      inner_packet payload src dst src_port c,
      ground (arith, made, s.four_bytes, d.four_bytes),
      omega arith,
      stripped payload src dst src_port c s d,
    )
