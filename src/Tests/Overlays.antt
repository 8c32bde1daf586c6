-- ===== src/Tests/Overlays.antt =====
-- Tunnel headers and inner packets (internal/netio) on concrete values.
use gobfd.Common.{ℕ, ◌+◌, ◌<◌, ◌≡◌, refl, arith, List, [], ◌∷◌, true, false, some, drop, length, ok}
use gobfd.Overlay.{
  marshal_vxlan_header, unmarshal_vxlan_header, GeneveHeader, marshal_geneve_header,
  unmarshal_geneve_header,
}
use gobfd.Overlay.Headers.{FitsGeneve, unmarshal-marshal_vxlan, unmarshal-marshal_geneve}
use gobfd.Overlay.Inner.{
  build_inner_packet, strip_inner_packet, ipv4_header_checksum, ip_header, fold_carries, fold_fuel,
}
use gobfd.Overlay.Checksum.{Folds, fold_carries_ends, ipv4_header_checksum_verifies}
use gobfd.Overlay.Strip.{IsV4, strip-build_inner_packet}
use gobfd.Tests.{peer, us, hello_bytes}

abbrev ten_zeros : List ℕ
ten_zeros = 9 ∷ 9 ∷ 9 ∷ 9 ∷ 9 ∷ 9 ∷ 9 ∷ 9 ∷ 1 ∷ 2 ∷ []

unmarshal-marshal_vxlan_example :
    ((marshal_vxlan_header ten_zeros 5000).1 ≡ ok 8)
    × (unmarshal_vxlan_header (marshal_vxlan_header ten_zeros 5000).0 ≡ ok (record { vni = 5000 }))
    × (drop 8 (marshal_vxlan_header ten_zeros 5000).0 ≡ drop 8 ten_zeros)
unmarshal-marshal_vxlan_example = unmarshal-marshal_vxlan ten_zeros 5000 (omega arith) (omega arith)

abbrev control : GeneveHeader
control = record {
  geneve_version = 0;
  opt_len = 3;
  o_bit = true;
  c_bit = false;
  protocol_type = 0x6558;
  geneve_vni = 70000;
}

control-FitsGeneve : FitsGeneve control
control-FitsGeneve = record {
  version_zero = refl;
  opt_fits = omega arith;
  protocol_fits = omega arith;
  vni_fits = omega arith;
}

unmarshal-marshal_geneve_example :
    ((marshal_geneve_header ten_zeros control).1 ≡ ok 8)
    × (unmarshal_geneve_header (marshal_geneve_header ten_zeros control).0 ≡ ok control)
    × (drop 8 (marshal_geneve_header ten_zeros control).0 ≡ drop 8 ten_zeros)
unmarshal-marshal_geneve_example =
    unmarshal-marshal_geneve ten_zeros control (omega arith) control-FitsGeneve

fold_carries_ends_example :
    (r : ℕ) × ((more : ℕ) → fold_carries (fold_fuel + more) 0x1FFFF ≡ some r) × Folds 0x1FFFF r
fold_carries_ends_example = fold_carries_ends 0x1FFFF (omega arith)

ipv4_header_checksum_verifies_example :
    (c : ℕ) × (ipv4_header_checksum (ip_header 24 0 peer us) ≡ some c)
    × (c < 65536)
    × (ipv4_header_checksum (ip_header 24 c peer us) ≡ some 0)
ipv4_header_checksum_verifies_example = ipv4_header_checksum_verifies 24 peer us

peer-IsV4 : IsV4 peer
peer-IsV4 = record { four_bytes = refl; value_fits = omega arith; no_zone = refl }

us-IsV4 : IsV4 us
us-IsV4 = record { four_bytes = refl; value_fits = omega arith; no_zone = refl }

strip-build_inner_packet_example :
    (packet : List ℕ) × (build_inner_packet hello_bytes peer us 49152 ≡ ok (some packet))
    × (length packet ≡ 42 + length hello_bytes)
    × (strip_inner_packet packet
        ≡ ok (record { bfd_payload = hello_bytes; src_ip = peer; dst_ip = us }))
strip-build_inner_packet_example =
    strip-build_inner_packet hello_bytes peer us 49152 peer-IsV4 us-IsV4
