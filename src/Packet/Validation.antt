-- ===== src/Packet/Validation.antt =====
-- What UnmarshalControlPacket (internal/bfd/packet.go) ensures of a packet that it accepts.
use gobfd.Common.{
  ℕ, zero, suc, ◌+◌, ◌/◌, ◌^◌, ◌<◌, ◌≤◌, ◌≡◌, ◌≢◌, ◌⊎◌, refl, sym, List, [], ◌∷◌, Option, none,
  some, true, false, arith, if◌then◌else◌, length, take, drop, get_or, ok, ◌>>=◌, >>=-eq-ok,
  guard->>-eq-ok, ok-injective, uint32_at, Bool-cases, inl, inr, leb, bit_and_31,
}
use mathlib.Core.Path.{subst}
use gobfd.Packet.Header.{FitsWire}
use gobfd.Packet.{AuthSection, State, admin_down, down, state_of_code, state_code, ControlPacket}
use gobfd.Packet.Unmarshal.{
  unmarshal_control_packet, decode_header, decode_body, validate_header, validate_discriminators,
  unmarshal_auth, unmarshal_auth_section,
}

abbrev pub AreBytes : List ℕ → Type 0
AreBytes [] = Unit
AreBytes (x ∷ xs) = (x < 256) × AreBytes xs

byte-lt : (buf : List ℕ) (i : ℕ) → AreBytes buf → get_or buf i 0 < 256
byte-lt [] i h = omega arith
byte-lt (x ∷ xs) zero h = h.0
byte-lt (x ∷ xs) (suc i) h = byte-lt xs i h.1

word-lt : (buf : List ℕ) (i : ℕ) → AreBytes buf → uint32_at buf i < 2 ^ 32
word-lt buf i h =
    omega
      (arith, byte-lt buf i h, byte-lt buf (i + 1) h, byte-lt buf (i + 2) h, byte-lt buf (i + 3) h)

-- The checks of RFC 5880 section 6.8.6 that look at the packet alone, for a payload of the given size:
-- the version, the Length field, the Detect Mult, the Multipoint bit and the two discriminators.
pub record IsChecked (pkt : ControlPacket) (size : ℕ) : Type 0 where
  pub version_one : pkt.pkt_version ≡ 1
  pub length_low : (if pkt.auth_present then 26 else 24) ≤ pkt.length_field
  pub length_high : pkt.length_field ≤ size
  pub mult_set : pkt.detect_mult ≢ 0
  pub not_multipoint : pkt.multipoint ≡ false
  pub my_set : pkt.my_discriminator ≢ 0
  pub your_set : (pkt.your_discriminator ≢ 0) ⊎ ((pkt.state ≡ down) ⊎ (pkt.state ≡ admin_down))

checked_header :
    (buf : List ℕ) (pkt : ControlPacket)
    → unmarshal_control_packet buf ≡ ok pkt
    → (validate_header (decode_header buf) (length buf) ≡ ok tt)
      × (validate_discriminators (decode_body buf (decode_header buf)) ≡ ok tt)
      × (unmarshal_auth buf (decode_body buf (decode_header buf)) ≡ ok pkt)
unfolding unmarshal_control_packet
checked_header buf pkt h =
    let (long, h1) = guard->>-eq-ok (leb 24 (length buf)) _ _ h in
    let (u, a, h2) = >>=-eq-ok (validate_header (decode_header buf) (length buf)) _ h1 in
    let (v, b, h3) =
      >>=-eq-ok (validate_discriminators (decode_body buf (decode_header buf))) _ h2 in
    (a, b, h3)

-- The section that the A bit announces, and none without it.
abbrev pub Section : List ℕ → ControlPacket → Type 0
Section buf pkt =
    ((pkt.auth_present ≡ false) × (pkt.auth ≡ none))
    ⊎ ((pkt.auth_present ≡ true)
        × (a : AuthSection) × (pkt.auth ≡ some a)
        × (unmarshal_auth_section (drop 24 (take pkt.length_field buf)) ≡ ok a))

-- Only the section is read after the checks.
auth_only :
    (buf : List ℕ) (d pkt : ControlPacket)
    → unmarshal_auth buf d ≡ ok pkt
    → Section buf pkt × (pkt ≡ record d { auth = pkt.auth })
unfolding unmarshal_auth
auth_only buf d pkt h = elim (Bool-cases d.auth_present) [
  | inl e ↦
      let h' : (unmarshal_auth_section (drop 24 (take d.length_field buf))
            >>= (λ a. ok (record d { auth = some a })))
          ≡ ok pkt =
        subst
          (λ b.
            (if b
              then unmarshal_auth_section (drop 24 (take d.length_field buf))
                >>= (λ a. ok (record d { auth = some a }))
              else ok (record d { auth = none }))
            ≡ ok pkt)
          e h in
      let (a, read_, same) = >>=-eq-ok _ _ h' in
      subst (λ p. Section buf p × (p ≡ record d { auth = p.auth })) (ok-injective same)
        (inr (e, a, refl, read_), refl)
  | inr e ↦
      let h' : ok (record d { auth = none }) ≡ ok pkt =
        subst
          (λ b.
            (if b
              then unmarshal_auth_section (drop 24 (take d.length_field buf))
                >>= (λ a. ok (record d { auth = some a }))
              else ok (record d { auth = none }))
            ≡ ok pkt)
          e h in
      subst (λ p. Section buf p × (p ≡ record d { auth = p.auth })) (ok-injective h')
        (inl (e, refl), refl)
]

named_down : (st : State) → (state_code st ≡ 1 → st ≡ down) × (state_code st ≡ 0 → st ≡ admin_down)
named_down st = ground arith

header-IsChecked :
    (d : ControlPacket) (size : ℕ)
    → validate_header d size ≡ ok tt
    → validate_discriminators d ≡ ok tt
    → IsChecked d size
unfolding validate_header validate_discriminators
header-IsChecked d size h k = ground (arith, h, k, named_down d.state)

state_of_code-lt : (n : ℕ) → n < 4 → state_code (state_of_code n) < 4
state_of_code-lt n h = ground arith

decoded_fits :
    (buf : List ℕ)
    → AreBytes buf
    → (decode_header buf).pkt_version ≡ 1
    → FitsWire (decode_body buf (decode_header buf))
unfolding decode_header decode_body
decoded_fits buf b v = record {
  version_fits = omega (arith, byte-lt buf 0 b);
  diag_fits = omega (arith, bit_and_31 (get_or buf 0 0));
  state_fits = state_of_code-lt (get_or buf 1 0 / 64) (omega (arith, byte-lt buf 1 b));
  detect_mult_fits = byte-lt buf 2 b;
  my_discriminator_fits = word-lt buf 4 b;
  your_discriminator_fits = word-lt buf 8 b;
  desired_fits = word-lt buf 12 b;
  required_fits = word-lt buf 16 b;
  echo_fits = word-lt buf 20 b;
}

header_first :
    (buf : List ℕ) (n : ℕ)
    → validate_header (decode_header buf) n ≡ ok tt
    → validate_header (decode_body buf (decode_header buf)) n ≡ ok tt
unfolding validate_header decode_body
header_first buf n h = h

same_checks :
    (d : ControlPacket) (o : Option AuthSection) (n : ℕ)
    → IsChecked d n
    → FitsWire d
    → IsChecked (record d { auth = o }) n × FitsWire (record d { auth = o })
same_checks d o n c f = ground (arith, c, f)

-- A packet that is accepted from a payload of bytes passes those checks of RFC 5880 section 6.8.6
-- that look at the packet alone, of its version, its Length field, its Detect Mult, its Multipoint bit
-- and its two discriminators; the choice of a session and authentication come later. Its fields fit the widths of the wire, and it has an authentication section exactly if its A bit
-- is set: the one that the bytes between the header and the announced length decode to.
pub unmarshal_checks :
    (buf : List ℕ) (pkt : ControlPacket)
    → AreBytes buf
    → unmarshal_control_packet buf ≡ ok pkt
    → IsChecked pkt (length buf) × FitsWire pkt × Section buf pkt
unfolding decode_header decode_body
unmarshal_checks buf pkt b h =
    let d = decode_body buf (decode_header buf) in
    let (p, q, r) = checked_header buf pkt h in
    let (section, same) = auth_only buf d pkt r in
    let c = header-IsChecked d (length buf) (header_first buf (length buf) p) q in
    let (c', f) = same_checks d pkt.auth (length buf) c (decoded_fits buf b c.version_one) in
    (subst (λ x. IsChecked x (length buf)) (sym same) c', subst FitsWire (sym same) f, section)
