-- ===== src/Overlay/Inner.antt =====
-- The inner packet of a tunnel, Ethernet, IPv4 and UDP around a BFD packet:
-- internal/netio/overlay_inner.go.
use gobfd.Common.{
  ℕ, zero, suc, ◌+◌, ◌-◌, ◌*◌, ◌/◌, ◌%◌, ◌^◌, List, [], ◌∷◌, ◌++◌, Option, none, some, Bool, not,
  ◌||◌, ltb, ◌==◌, if◌then◌else◌, length, get_or, drop, uint32_bytes, uint32_at, Result, ok, err,
  ◌>>◌, guard,
}
use gobfd.Netip.{Addr}
use gobfd.Overlay.{
  OverlayError, inner_packet_too_short, inner_bad_ether_type, inner_bad_ip_version,
  inner_bad_protocol, inner_ipv4_only, uint16_bytes, uint16_at,
}

abbrev pub inner_eth_size : ℕ
inner_eth_size = 14

abbrev pub inner_ipv4_size : ℕ
inner_ipv4_size = 20

abbrev pub inner_udp_size : ℕ
inner_udp_size = 8

abbrev pub inner_overhead_ipv4 : ℕ
inner_overhead_ipv4 = inner_eth_size + inner_ipv4_size + inner_udp_size

abbrev pub inner_dst_mac : List ℕ
inner_dst_mac = 0x00 ∷ 0x52 ∷ 0x02 ∷ 0x00 ∷ 0x00 ∷ 0x00 ∷ []

abbrev pub inner_src_mac : List ℕ
inner_src_mac = 0x02 ∷ 0x00 ∷ 0x00 ∷ 0x00 ∷ 0x00 ∷ 0x01 ∷ []

-- The first loop and the odd byte behind it; the sum is a uint32.
unfoldable pub sum_words : List ℕ → ℕ → ℕ
sum_words [] sum = sum
sum_words (a ∷ []) sum = (sum + a * 2 ^ 8 % 2 ^ 32) % 2 ^ 32
sum_words (a ∷ b ∷ rest) sum = sum_words rest ((sum + (a * 2 ^ 8 + b)) % 2 ^ 32)

-- The loop `for sum>>16 != 0`, on fuel; `none` is a loop that has not ended.
unfoldable pub fold_carries : ℕ → ℕ → Option ℕ
fold_carries zero sum = none
fold_carries (suc fuel) sum =
    let rest = fold_carries fuel ((sum % 2 ^ 16 + sum / 2 ^ 16) % 2 ^ 32) in
    if sum / 2 ^ 16 == 0 then some sum else rest

-- `^uint16(sum)`.
abbrev pub complement : Option ℕ → Option ℕ
complement none = none
complement (some sum) = some (2 ^ 16 - 1 - sum % 2 ^ 16)

-- Three tests of the loop are enough for a sum of 32 bits.
abbrev pub fold_fuel : ℕ
fold_fuel = 3

unfoldable pub ipv4_header_checksum : List ℕ → Option ℕ
ipv4_header_checksum hdr = complement (fold_carries fold_fuel (sum_words hdr 0))

-- `Is4`; `As4` and `AddrFrom4` are the four bytes of the value.
abbrev pub is4 : Addr → Bool
is4 addr = addr.bit_len == 32

abbrev pub addr_from4 : List ℕ → ℕ → Addr
addr_from4 buf off = record { bit_len = 32; value = uint32_at buf off; zone = 0 }

abbrev pub ether_header : List ℕ
ether_header = inner_dst_mac ++ (inner_src_mac ++ uint16_bytes 0x0800)

-- The twenty bytes of the IPv4 header; the fields are version, type of service, length, identifier,
-- flags, time to live, protocol, checksum and the two addresses.
abbrev pub ip_header : ℕ → ℕ → Addr → Addr → List ℕ
ip_header payload_len csum src dst =
    0x45
    ∷ 0
    ∷ (uint16_bytes ((inner_ipv4_size + inner_udp_size + payload_len) % 2 ^ 16)
        ++ (uint16_bytes 0
            ++ (uint16_bytes 0x4000
                ++ (255
                    ∷ 17
                    ∷ (uint16_bytes csum ++ (uint32_bytes src.value ++ uint32_bytes dst.value))))))

abbrev pub udp_header : ℕ → ℕ → List ℕ
udp_header payload_len src_port =
    uint16_bytes src_port
    ++ (uint16_bytes 3784
        ++ (uint16_bytes ((inner_udp_size + payload_len) % 2 ^ 16) ++ uint16_bytes 0))

-- The packet with its checksum field.
abbrev pub inner_packet : List ℕ → Addr → Addr → ℕ → ℕ → List ℕ
inner_packet payload src dst src_port csum =
    ether_header
    ++ (ip_header (length payload) csum src dst
        ++ (udp_header (length payload) src_port ++ payload))

abbrev pub with_checksum : List ℕ → Addr → Addr → ℕ → Option ℕ → Option (List ℕ)
with_checksum payload src dst src_port none = none
with_checksum payload src dst src_port (some csum) =
    some (inner_packet payload src dst src_port csum)

-- The buffer is new and is written from its first byte to its last. The checksum is that of the
-- header in which its own field is zero; `none` would be a checksum whose loop does not end.
unfoldable pub build_inner_packet : List ℕ → Addr → Addr → ℕ → Result OverlayError (Option (List ℕ))
build_inner_packet payload src dst src_port =
    if not (is4 src) || not (is4 dst)
    then err inner_ipv4_only
    else ok (
        with_checksum payload src dst src_port
          (ipv4_header_checksum (ip_header (length payload) 0 src dst)))

pub record Stripped : Type 0 where
  pub bfd_payload : List ℕ
  pub src_ip : Addr
  pub dst_ip : Addr

unfoldable pub strip_inner_packet : List ℕ → Result OverlayError Stripped
strip_inner_packet buf = do
  guard (not (ltb (length buf) inner_overhead_ipv4)) inner_packet_too_short
  guard (uint16_at buf 12 == 0x0800) inner_bad_ether_type
  guard (get_or buf inner_eth_size 0 / 2 ^ 4 == 4) inner_bad_ip_version
  guard (get_or buf (inner_eth_size + 9) 0 == 17) inner_bad_protocol
  ok (record {
    bfd_payload = drop inner_overhead_ipv4 buf;
    src_ip = addr_from4 buf (inner_eth_size + 12);
    dst_ip = addr_from4 buf (inner_eth_size + 16);
  })
