-- ===== src/Packet/RoundTrip.antt =====
-- MarshalControlPacket followed by UnmarshalControlPacket (internal/bfd/packet.go).
use gobfd.Common.{
  ℕ, ◌+◌, ◌<◌, ◌≤◌, ◌≡◌, ◌≢◌, ◌⊎◌, refl, ap, sym, ◌∙◌, List, [], ◌++◌, Option, none, some, Bool,
  true, false, arith, if◌then◌else◌, length, drop, take, ok, ◌>>=◌, leb, le→leb, le→not_ltb,
  length-append, take-append, length-drop,
}
use gobfd.Packet.{admin_down, down, AuthSection, ControlPacket}
use gobfd.Packet.Marshal.{marshal_control_packet, sent_auth, auth_size, marshal_rest}
use gobfd.Packet.Unmarshal.{
  unmarshal_auth_section, unmarshal_control_packet, decode_header, decode_body, validate_header,
  validate_discriminators, unmarshal_auth,
}
use gobfd.Packet.Header.{FitsWire, header_bytes, write_header-header_bytes, decode-header_bytes}
use gobfd.Packet.AuthBytes.{
  AuthAgrees, auth_bytes, len_bounds, length-auth_bytes, section_written, section_read,
}
use mathlib.Core.List.{append-nil}

pub record IsValid (pkt : ControlPacket) : Type 0 where
  pub fits : FitsWire pkt
  pub version_one : pkt.pkt_version ≡ 1
  pub mult_set : pkt.detect_mult ≢ 0
  pub not_multipoint : pkt.multipoint ≡ false
  pub my_set : pkt.my_discriminator ≢ 0
  pub your_set : (pkt.your_discriminator ≢ 0) ⊎ ((pkt.state ≡ down) ⊎ (pkt.state ≡ admin_down))
  pub auth_agrees : AuthAgrees pkt.auth_present pkt.auth

abbrev pub sent_bytes : Option AuthSection → List ℕ
sent_bytes none = []
sent_bytes (some a) = auth_bytes a.auth_type a

-- The packet's size on the wire.
abbrev pub packet_size : ControlPacket → ℕ
packet_size pkt = 24 + auth_size (sent_auth pkt)

size_bounds :
    (p : Bool) (o : Option AuthSection)
    → AuthAgrees p o
    → (auth_size (if p then o else none) ≤ 28) × (p ≡ true → 4 ≤ auth_size (if p then o else none))
size_bounds true (some a) g =
    (omega (arith, len_bounds a.auth_type a g), λ e. omega (arith, len_bounds a.auth_type a g))
size_bounds false none g = (omega arith, λ e. cc)
size_bounds true none g = absurd g
size_bounds false (some a) g = absurd g

length-sent_bytes :
    (p : Bool) (o : Option AuthSection)
    → AuthAgrees p o
    → length (sent_bytes (if p then o else none)) ≡ auth_size (if p then o else none)
length-sent_bytes true (some a) g = length-auth_bytes a.auth_type a g
length-sent_bytes false none g = refl
length-sent_bytes true none g = absurd g
length-sent_bytes false (some a) g = absurd g

section_accepted :
    (p : Bool) (o : Option AuthSection) (d : ControlPacket)
    → AuthAgrees p o
    → (if p
        then unmarshal_auth_section (sent_bytes (if p then o else none))
          >>= (λ section. ok (record d { auth = some section }))
        else ok (record d { auth = none }))
      ≡ ok (record d { auth = o })
section_accepted true (some a) d g = rw (section_read a.auth_type a g)
section_accepted false none d g = refl
section_accepted true none d g = absurd g
section_accepted false (some a) d g = absurd g

-- The header tests read nothing of the body.
header_alone :
    (buf : List ℕ) (h : ControlPacket) (n : ℕ)
    → validate_header (decode_body buf h) n ≡ validate_header h n
unfolding validate_header decode_body
header_alone buf h n = refl

-- A buffer whose decoded fields pass every test is accepted.
accepted :
    (buf : List ℕ) (d r : ControlPacket)
    → 24 ≤ length buf
    → decode_body buf (decode_header buf) ≡ d
    → validate_header d (length buf) ≡ ok tt
    → validate_discriminators d ≡ ok tt
    → unmarshal_auth buf d ≡ ok r
    → unmarshal_control_packet buf ≡ ok r
unfolding unmarshal_control_packet
accepted buf d r room e h1 h2 h3 =
    let long : leb 24 (length buf) ≡ true = le→leb 24 (length buf) room in
    let h : validate_header (decode_header buf) (length buf) ≡ ok tt =
      sym (header_alone buf (decode_header buf) (length buf))
      ∙ ap (λ x. validate_header x (length buf)) e
      ∙ h1 in
    rw (long, h, e, h2, h3)

rest_written :
    (p : Bool) (o : Option AuthSection) (pkt : ControlPacket) (n : ℕ) (tail : List ℕ)
    → AuthAgrees p o
    → auth_size (if p then o else none) ≤ length tail
    → (rest : List ℕ) × (marshal_rest (if p then o else none) n (header_bytes pkt n ++ tail)
        ≡ (header_bytes pkt n ++ (sent_bytes (if p then o else none) ++ rest), ok n))
unfolding marshal_rest
rest_written false none pkt n tail g room = (tail, refl)
rest_written true (some a) pkt n tail g room =
    let (rest, e) = section_written a tail g room in (rest, rw e)
rest_written true none pkt n tail g room = absurd g
rest_written false (some a) pkt n tail g room = absurd g

module _ (pkt : ControlPacket) (v : IsValid pkt) where
  -- What is decoded before the section is looked at.
  abbrev decoded : ControlPacket
  decoded = record pkt { length_field = packet_size pkt; auth = none }

  size-lt : packet_size pkt < 256
  size-lt = omega (arith, size_bounds pkt.auth_present pkt.auth v.auth_agrees)

  header_accepted : (size : ℕ) → packet_size pkt ≤ size → validate_header decoded size ≡ ok tt
  unfolding validate_header
  header_accepted size room =
      let (hi, lo) = size_bounds pkt.auth_present pkt.auth v.auth_agrees in
      ground (arith, v.version_one, v.mult_set, v.not_multipoint, lo, size-lt)

  discriminators_accepted : validate_discriminators decoded ≡ ok tt
  unfolding validate_discriminators
  discriminators_accepted = ground (arith, v.my_set, v.your_set)

  auth_read :
      (bytes : List ℕ)
      → take (packet_size pkt) bytes
        ≡ header_bytes pkt (packet_size pkt) ++ sent_bytes (sent_auth pkt)
      → unmarshal_auth bytes decoded ≡ ok (record pkt { length_field = packet_size pkt })
  unfolding unmarshal_auth
  auth_read bytes e = rw e (section_accepted pkt.auth_present pkt.auth decoded v.auth_agrees)

  length-packet :
      length (header_bytes pkt (packet_size pkt) ++ sent_bytes (sent_auth pkt)) ≡ packet_size pkt
  length-packet = omega (arith, length-sent_bytes pkt.auth_present pkt.auth v.auth_agrees)

  -- Whatever follows the packet in the buffer.
  pub bytes_read :
      (rest : List ℕ)
      → unmarshal_control_packet
          (header_bytes pkt (packet_size pkt) ++ (sent_bytes (sent_auth pkt) ++ rest))
        ≡ ok (record pkt { length_field = packet_size pkt })
  bytes_read rest =
      let n = packet_size pkt in
      let front = header_bytes pkt n ++ sent_bytes (sent_auth pkt) in
      let size : length (front ++ rest) ≡ n + length rest =
        length-append front rest ∙ ap (λ k. k + length rest) length-packet in
      accepted (header_bytes pkt n ++ (sent_bytes (sent_auth pkt) ++ rest)) decoded _ (omega arith)
        (decode-header_bytes pkt n (sent_bytes (sent_auth pkt) ++ rest) v.fits size-lt)
        (header_accepted _ (omega (arith, size))) discriminators_accepted
        (auth_read _ (take-append n front rest length-packet))

  pub bytes_written :
      (buf : List ℕ)
      → packet_size pkt ≤ length buf
      → (rest : List ℕ) × (marshal_control_packet pkt buf ≡ (
        header_bytes pkt (packet_size pkt) ++ (sent_bytes (sent_auth pkt) ++ rest),
        ok (packet_size pkt),
      ))
  unfolding marshal_control_packet
  bytes_written buf room =
      let n = packet_size pkt in
      let fits = le→not_ltb (length buf) n room in
      let (rest, e) =
        rest_written pkt.auth_present pkt.auth pkt n (drop 24 buf) v.auth_agrees
          (omega (arith, length-drop 24 buf)) in
      (rest, rw (fits, write_header-header_bytes pkt n buf v.fits (omega arith)) e)

-- A valid packet, written into any buffer with room for it, is reported with its size and is read
-- back with every field as it was and the Length field set to that size: from the whole buffer, and
-- from the written bytes alone, for each kind of authentication section and for none.
pub unmarshal-marshal :
    (pkt : ControlPacket) (buf : List ℕ)
    → IsValid pkt
    → packet_size pkt ≤ length buf
    → ((marshal_control_packet pkt buf).1 ≡ ok (packet_size pkt))
      × (unmarshal_control_packet (marshal_control_packet pkt buf).0
          ≡ ok (record pkt { length_field = packet_size pkt }))
      × (unmarshal_control_packet (take (packet_size pkt) (marshal_control_packet pkt buf).0)
          ≡ ok (record pkt { length_field = packet_size pkt }))
unmarshal-marshal pkt buf v room =
    let n = packet_size pkt in
    let (rest, e) = bytes_written pkt v buf room in
    let front = header_bytes pkt n ++ sent_bytes (sent_auth pkt) in
    let alone : take n (header_bytes pkt n ++ (sent_bytes (sent_auth pkt) ++ rest)) ≡ front =
      take-append n front rest (length-packet pkt v) in
    let same : front ++ [] ≡ front = append-nil front in
    rw e (
      refl,
      bytes_read pkt v rest,
      ap unmarshal_control_packet (alone ∙ sym same) ∙ bytes_read pkt v [],
    )
