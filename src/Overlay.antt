-- ===== src/Overlay.antt =====
-- The headers of the overlay tunnels: internal/netio/vxlan.go and geneve.go. A byte slice is a list of
-- numbers; an encoder returns the buffer as it leaves it.
pub mod Inner
pub mod Checksum
pub mod Headers
pub mod Strip
use gobfd.Common.{
  ℕ, ◌+◌, ◌*◌, ◌/◌, ◌%◌, ◌^◌, List, [], ◌∷◌, Bool, true, false, not, ltb, ◌==◌, if◌then◌else◌,
  length, get_or, write_at, bit_and, bit_or, uint32_bytes, uint32_at, Result, ok, err, ◌>>=◌, ◌>>◌,
  guard,
}

abbrev pub vxlan_header_size : ℕ
vxlan_header_size = 8

abbrev pub vxlan_flag_vni : ℕ
vxlan_flag_vni = 0x08

abbrev pub max_vni : ℕ
max_vni = 0x00FFFFFF

pub data OverlayError : Type 0 where
  vxlan_header_too_short vxlan_invalid_flags vxlan_vni_overflow : OverlayError
  geneve_header_too_short geneve_vni_overflow geneve_invalid_version : OverlayError
  inner_packet_too_short inner_bad_ether_type inner_bad_ip_version inner_bad_protocol : OverlayError
  inner_ipv4_only : OverlayError

-- `binary.BigEndian.PutUint16` and `binary.BigEndian.Uint16`.
abbrev pub uint16_bytes : ℕ → List ℕ
uint16_bytes n = n / 2 ^ 8 % 256 ∷ n % 256 ∷ []

abbrev pub uint16_at : List ℕ → ℕ → ℕ
uint16_at buf off = get_or buf off 0 * 2 ^ 8 + get_or buf (off + 1) 0

pub record VxlanHeader : Type 0 where
  pub vni : ℕ

unfoldable pub marshal_vxlan_header : List ℕ → ℕ → List ℕ × Result OverlayError ℕ
marshal_vxlan_header buf vni =
    if ltb (length buf) vxlan_header_size
    then (buf, err vxlan_header_too_short)
    else if ltb max_vni vni
    then (buf, err vxlan_vni_overflow)
    else (
      write_at 4 (uint32_bytes (vni * 2 ^ 8 % 2 ^ 32))
          (write_at 0 (vxlan_flag_vni ∷ 0 ∷ 0 ∷ 0 ∷ []) buf),
      ok vxlan_header_size,
    )

unfoldable pub unmarshal_vxlan_header : List ℕ → Result OverlayError VxlanHeader
unmarshal_vxlan_header buf = do
  guard (not (ltb (length buf) vxlan_header_size)) vxlan_header_too_short
  guard (not (bit_and (get_or buf 0 0) vxlan_flag_vni == 0)) vxlan_invalid_flags
  ok (record { vni = uint32_at buf 4 / 2 ^ 8 })

abbrev pub geneve_header_min_size : ℕ
geneve_header_min_size = 8

pub record GeneveHeader : Type 0 where
  pub geneve_version : ℕ
  pub opt_len : ℕ
  pub o_bit : Bool
  pub c_bit : Bool
  pub protocol_type : ℕ
  pub geneve_vni : ℕ

unfoldable pub total_header_size : GeneveHeader → ℕ
total_header_size h = geneve_header_min_size + h.opt_len * 4

-- `buf[1] |= mask` under a flag.
abbrev pub set_flag : Bool → ℕ → ℕ → ℕ
set_flag true mask b = bit_or b mask
set_flag false mask b = b

unfoldable pub marshal_geneve_header : List ℕ → GeneveHeader → List ℕ × Result OverlayError ℕ
marshal_geneve_header buf hdr =
    if ltb (length buf) geneve_header_min_size
    then (buf, err geneve_header_too_short)
    else if ltb max_vni hdr.geneve_vni
    then (buf, err geneve_vni_overflow)
    else (
      write_at 4 (uint32_bytes (hdr.geneve_vni * 2 ^ 8 % 2 ^ 32)) (
          write_at 2 (uint16_bytes hdr.protocol_type) (
            write_at 0
              (bit_or (hdr.geneve_version * 2 ^ 6 % 256) (bit_and hdr.opt_len 0x3F)
                ∷ set_flag hdr.c_bit 0x40 (set_flag hdr.o_bit 0x80 0)
                ∷ [])
              buf)),
      ok geneve_header_min_size,
    )

unfoldable pub unmarshal_geneve_header : List ℕ → Result OverlayError GeneveHeader
unmarshal_geneve_header buf = do
  guard (not (ltb (length buf) geneve_header_min_size)) geneve_header_too_short
  guard (get_or buf 0 0 / 2 ^ 6 == 0) geneve_invalid_version
  ok (record {
    geneve_version = get_or buf 0 0 / 2 ^ 6;
    opt_len = bit_and (get_or buf 0 0) 0x3F;
    o_bit = not (bit_and (get_or buf 1 0) 0x80 == 0);
    c_bit = not (bit_and (get_or buf 1 0) 0x40 == 0);
    protocol_type = uint16_at buf 2;
    geneve_vni = uint32_at buf 4 / 2 ^ 8;
  })
