-- ===== src/Overlay/Headers.antt =====
-- The VXLAN and Geneve headers (internal/netio/vxlan.go and geneve.go), encoded and decoded.
use gobfd.Common.{
  ℕ, ◌*◌, ◌%◌, ◌^◌, ◌<◌, ◌≤◌, ◌≡◌, refl, List, ◌∷◌, Bool, true, false, not, ◌==◌, arith, length,
  drop, bit_and, bit_or, bit_and_63, bit_or_zero, ok,
}
use gobfd.Overlay.{
  marshal_vxlan_header, unmarshal_vxlan_header, GeneveHeader, marshal_geneve_header,
  unmarshal_geneve_header, set_flag,
}

-- A network identifier of 24 bits comes back from the VXLAN header that was written for it, in any
-- buffer that has room; the bytes behind the header are left alone.
pub unmarshal-marshal_vxlan :
    (buf : List ℕ) (vni : ℕ)
    → 8 ≤ length buf
    → vni < 2 ^ 24
    → ((marshal_vxlan_header buf vni).1 ≡ ok 8)
      × (unmarshal_vxlan_header (marshal_vxlan_header buf vni).0 ≡ ok (record { vni = vni }))
      × (drop 8 (marshal_vxlan_header buf vni).0 ≡ drop 8 buf)
unfolding marshal_vxlan_header unmarshal_vxlan_header
unmarshal-marshal_vxlan (a ∷ b ∷ c ∷ d ∷ e ∷ f ∷ g ∷ h ∷ rest) vni room fits =
    (ground arith, ground arith, ground arith)
unmarshal-marshal_vxlan _ vni room fits = absurd (omega arith)

-- A header of version 0, the only one that the decoder takes, whose other fields fit the bits that
-- the wire has for them.
pub record FitsGeneve (hdr : GeneveHeader) : Type 0 where
  pub version_zero : hdr.geneve_version ≡ 0
  pub opt_fits : hdr.opt_len < 64
  pub protocol_fits : hdr.protocol_type < 2 ^ 16
  pub vni_fits : hdr.geneve_vni < 2 ^ 24

flags_back :
    (o c : Bool)
    → let b = set_flag c 0x40 (set_flag o 0x80 0) in
      (not (bit_and b 0x80 == 0) ≡ o) × (not (bit_and b 0x40 == 0) ≡ c)
flags_back true true = (refl, refl)
flags_back true false = (refl, refl)
flags_back false true = (refl, refl)
flags_back false false = (refl, refl)

first_back : (v n : ℕ) → v ≡ 0 → n < 64 → bit_or (v * 2 ^ 6 % 256) (bit_and n 0x3F) ≡ n
first_back v n e h =
    let z : v * 2 ^ 6 % 256 ≡ 0 = omega arith in
    let k : bit_and n 63 ≡ n = omega (arith, bit_and_63 n) in rw (z, k) (bit_or_zero n h)

-- A Geneve header that fits comes back from the bytes that were written for it, in any buffer that
-- has room; the bytes behind the eight of the header are left alone.
pub unmarshal-marshal_geneve :
    (buf : List ℕ) (hdr : GeneveHeader)
    → 8 ≤ length buf
    → FitsGeneve hdr
    → ((marshal_geneve_header buf hdr).1 ≡ ok 8)
      × (unmarshal_geneve_header (marshal_geneve_header buf hdr).0 ≡ ok hdr)
      × (drop 8 (marshal_geneve_header buf hdr).0 ≡ drop 8 buf)
unfolding marshal_geneve_header unmarshal_geneve_header
unmarshal-marshal_geneve (a ∷ b ∷ c ∷ d ∷ e ∷ f ∷ g ∷ h ∷ rest) hdr room fits =
    let first = first_back hdr.geneve_version hdr.opt_len fits.version_zero fits.opt_fits in
    let flags = flags_back hdr.o_bit hdr.c_bit in
    (
      ground arith,
      ground (
        arith,
        first,
        flags,
        bit_and_63 hdr.opt_len,
        fits.version_zero,
        fits.opt_fits,
        fits.protocol_fits,
        fits.vni_fits,
      ),
      ground arith,
    )
unmarshal-marshal_geneve _ hdr room fits = absurd (omega arith)
