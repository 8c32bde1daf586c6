-- ===== src/Packet/Header.antt =====
-- The 24 header bytes that MarshalControlPacket writes, in plain arithmetic, and what
-- UnmarshalControlPacket reads from them.
use gobfd.Common.{
  ℕ, ◌+◌, ◌*◌, ◌/◌, ◌%◌, ◌^◌, ◌<◌, ◌≤◌, ◌≡◌, refl, ap, ◌∙◌, List, ◌∷◌, ◌++◌, none, Bool, true,
  false, arith, length, drop, uint32_bytes, bit_and, bit_or, bit_and_1, bit_and_2, bit_and_4,
  bit_and_8, bit_and_16, bit_and_32, bit_and_31, bit_or_1, bit_or_2, bit_or_4, bit_or_8, bit_or_16,
  bit_or_32, bit_or_split, uint32_round_trip,
}
use gobfd.Packet.{State, admin_down, reserved, state_code, state_of_code, ControlPacket}
use gobfd.Packet.Marshal.{or_flag, pack_flags, write_header}
use gobfd.Packet.Unmarshal.{flag, decode_header, decode_body}

abbrev pub bit : Bool → ℕ
bit true = 1
bit false = 0

-- Every field fits the bits that the wire has for it.
pub record FitsWire (pkt : ControlPacket) : Type 0 where
  pub version_fits : pkt.pkt_version < 8
  pub diag_fits : pkt.diag < 32
  pub state_fits : state_code pkt.state < 4
  pub detect_mult_fits : pkt.detect_mult < 256
  pub my_discriminator_fits : pkt.my_discriminator < 2 ^ 32
  pub your_discriminator_fits : pkt.your_discriminator < 2 ^ 32
  pub desired_fits : pkt.desired_min_tx_interval < 2 ^ 32
  pub required_fits : pkt.required_min_rx_interval < 2 ^ 32
  pub echo_fits : pkt.required_min_echo_rx_interval < 2 ^ 32

or_flag-32 : (on : Bool) (y : ℕ) → y < 4 → or_flag on 32 (y * 64) ≡ (y * 2 + bit on) * 32
or_flag-32 true y h = omega (arith, bit_or_32 y h)
or_flag-32 false y h = omega arith

or_flag-16 : (on : Bool) (y : ℕ) → y < 8 → or_flag on 16 (y * 32) ≡ (y * 2 + bit on) * 16
or_flag-16 true y h = omega (arith, bit_or_16 y h)
or_flag-16 false y h = omega arith

or_flag-8 : (on : Bool) (y : ℕ) → y < 16 → or_flag on 8 (y * 16) ≡ (y * 2 + bit on) * 8
or_flag-8 true y h = omega (arith, bit_or_8 y h)
or_flag-8 false y h = omega arith

or_flag-4 : (on : Bool) (y : ℕ) → y < 32 → or_flag on 4 (y * 8) ≡ (y * 2 + bit on) * 4
or_flag-4 true y h = omega (arith, bit_or_4 y h)
or_flag-4 false y h = omega arith

or_flag-2 : (on : Bool) (y : ℕ) → y < 64 → or_flag on 2 (y * 4) ≡ (y * 2 + bit on) * 2
or_flag-2 true y h = omega (arith, bit_or_2 y h)
or_flag-2 false y h = omega arith

or_flag-1 : (on : Bool) (y : ℕ) → y < 128 → or_flag on 1 (y * 2) ≡ y * 2 + bit on
or_flag-1 true y h = omega (arith, bit_or_1 y h)
or_flag-1 false y h = omega arith

pub bit-lt : (b : Bool) → bit b < 2
bit-lt true = omega arith
bit-lt false = omega arith

-- The flag byte as a sum of its bits.
abbrev pub flag_byte : ControlPacket → ℕ
flag_byte pkt =
    state_code pkt.state * 64
    + bit pkt.poll * 32
    + bit pkt.final * 16
    + bit pkt.control_plane_independent * 8
    + bit pkt.auth_present * 4
    + bit pkt.demand * 2
    + bit pkt.multipoint

pub pack_flags-flag_byte :
    (pkt : ControlPacket) → state_code pkt.state < 4 → pack_flags pkt ≡ flag_byte pkt
unfolding pack_flags
pack_flags-flag_byte pkt h =
    let s = state_code pkt.state in
    let e : s * 64 % 256 ≡ s * 64 = omega arith in
    let y5 : ℕ = s * 2 + bit pkt.poll in
    let y4 : ℕ = y5 * 2 + bit pkt.final in
    let y3 : ℕ = y4 * 2 + bit pkt.control_plane_independent in
    let y2 : ℕ = y3 * 2 + bit pkt.auth_present in
    let y1 : ℕ = y2 * 2 + bit pkt.demand in
    rw
      (
        e,
        or_flag-32 pkt.poll s h,
        or_flag-16 pkt.final y5 (omega (arith, bit-lt)),
        or_flag-8 pkt.control_plane_independent y4 (omega (arith, bit-lt)),
        or_flag-4 pkt.auth_present y3 (omega (arith, bit-lt)),
        or_flag-2 pkt.demand y2 (omega (arith, bit-lt)),
        or_flag-1 pkt.multipoint y1 (omega (arith, bit-lt)),
      )
      (omega arith)

abbrev pub header_bytes : ControlPacket → ℕ → List ℕ
header_bytes pkt total_len =
    (pkt.pkt_version * 32 + pkt.diag)
    ∷ flag_byte pkt
    ∷ pkt.detect_mult
    ∷ total_len % 256
    ∷ (uint32_bytes pkt.my_discriminator
        ++ (uint32_bytes pkt.your_discriminator
            ++ (uint32_bytes pkt.desired_min_tx_interval
                ++ (uint32_bytes pkt.required_min_rx_interval
                    ++ uint32_bytes pkt.required_min_echo_rx_interval))))

first_byte : (v d : ℕ) → v < 8 → d < 32 → bit_or (v * 32 % 256) (bit_and d 31) ≡ v * 32 + d
first_byte v d hv hd =
    let e : v * 32 % 256 ≡ v * 32 = omega arith in
    let f : bit_and d 31 ≡ d = omega (arith, bit_and_31 d) in rw (e, f) (bit_or_split v d hv hd)

write_header_shape :
    (pkt : ControlPacket) (n : ℕ) (buf : List ℕ)
    → 24 ≤ length buf
    → write_header pkt n buf
      ≡ bit_or (pkt.pkt_version * 32 % 256) (bit_and pkt.diag 31)
          ∷ pack_flags pkt
          ∷ drop 2 (header_bytes pkt n)
        ++ drop 24 buf
unfolding write_header
write_header_shape pkt n
      (a ∷ b ∷ c ∷ d ∷ e ∷ f ∷ g ∷ h ∷ i ∷ j ∷ k ∷ l ∷ m ∷ n1 ∷ o ∷ p ∷ q ∷ r ∷ s ∷ t ∷ u ∷ v ∷ w
        ∷ x ∷ rest)
      _ =
    refl
write_header_shape pkt n _ lt = absurd (omega arith)

-- What the code writes over the first 24 bytes, the rest of the buffer unchanged.
pub write_header-header_bytes :
    (pkt : ControlPacket) (n : ℕ) (buf : List ℕ)
    → FitsWire pkt
    → 24 ≤ length buf
    → write_header pkt n buf ≡ header_bytes pkt n ++ drop 24 buf
write_header-header_bytes pkt n buf fits room = rw (
  write_header_shape pkt n buf room,
  first_byte pkt.pkt_version pkt.diag fits.version_fits fits.diag_fits,
  pack_flags-flag_byte pkt fits.state_fits,
)

flag_of_bit : (b : Bool) (x m : ℕ) → 0 < m → bit_and x m ≡ bit b * m → flag x m ≡ b
flag_of_bit true x m h e = ground arith
flag_of_bit false x m h e = ground arith

module _ (pkt : ControlPacket) (h : state_code pkt.state < 4) where
  flag_byte-lt : flag_byte pkt < 256
  flag_byte-lt = omega (arith, bit-lt)

  flag_byte-poll : flag (flag_byte pkt) 32 ≡ pkt.poll
  flag_byte-poll =
      flag_of_bit pkt.poll _ 32 (omega arith)
        (omega (arith, bit-lt, bit_and_32 (flag_byte pkt) flag_byte-lt))

  flag_byte-final : flag (flag_byte pkt) 16 ≡ pkt.final
  flag_byte-final =
      flag_of_bit pkt.final _ 16 (omega arith)
        (omega (arith, bit-lt, bit_and_16 (flag_byte pkt) flag_byte-lt))

  flag_byte-independent : flag (flag_byte pkt) 8 ≡ pkt.control_plane_independent
  flag_byte-independent =
      flag_of_bit pkt.control_plane_independent _ 8 (omega arith)
        (omega (arith, bit-lt, bit_and_8 (flag_byte pkt) flag_byte-lt))

  flag_byte-auth : flag (flag_byte pkt) 4 ≡ pkt.auth_present
  flag_byte-auth =
      flag_of_bit pkt.auth_present _ 4 (omega arith)
        (omega (arith, bit-lt, bit_and_4 (flag_byte pkt) flag_byte-lt))

  flag_byte-demand : flag (flag_byte pkt) 2 ≡ pkt.demand
  flag_byte-demand =
      flag_of_bit pkt.demand _ 2 (omega arith)
        (omega (arith, bit-lt, bit_and_2 (flag_byte pkt) flag_byte-lt))

  flag_byte-multipoint : flag (flag_byte pkt) 1 ≡ pkt.multipoint
  flag_byte-multipoint =
      flag_of_bit pkt.multipoint _ 1 (omega arith)
        (omega (arith, bit-lt, bit_and_1 (flag_byte pkt) flag_byte-lt))

pub state_of_code-state_code : (s : State) → state_of_code (state_code s) ≡ s
state_of_code-state_code admin_down = refl
state_of_code-state_code (reserved n) = ground arith
state_of_code-state_code _ = refl

flag_byte-state :
    (pkt : ControlPacket)
    → state_code pkt.state < 4
    → state_of_code (flag_byte pkt / 64) ≡ pkt.state
flag_byte-state pkt h =
    let e : flag_byte pkt / 64 ≡ state_code pkt.state = omega (arith, bit-lt) in
    ap state_of_code e ∙ state_of_code-state_code pkt.state

-- Reading the header back, whatever follows it.
pub decode-header_bytes :
    (pkt : ControlPacket) (n : ℕ) (rest : List ℕ)
    → FitsWire pkt
    → n < 256
    → decode_body (header_bytes pkt n ++ rest) (decode_header (header_bytes pkt n ++ rest))
      ≡ record pkt { length_field = n; auth = none }
unfolding decode_header decode_body
decode-header_bytes pkt n rest fits small =
    let v : (pkt.pkt_version * 32 + pkt.diag) / 32 ≡ pkt.pkt_version = omega arith in
    let d : bit_and (pkt.pkt_version * 32 + pkt.diag) 31 ≡ pkt.diag =
      omega (arith, bit_and_31 (pkt.pkt_version * 32 + pkt.diag)) in
    let l : n % 256 ≡ n = omega arith in
    rw (
      v,
      d,
      l,
      flag_byte-state pkt fits.state_fits,
      flag_byte-poll pkt fits.state_fits,
      flag_byte-final pkt fits.state_fits,
      flag_byte-independent pkt fits.state_fits,
      flag_byte-auth pkt fits.state_fits,
      flag_byte-demand pkt fits.state_fits,
      flag_byte-multipoint pkt fits.state_fits,
      uint32_round_trip pkt.my_discriminator fits.my_discriminator_fits,
      uint32_round_trip pkt.your_discriminator fits.your_discriminator_fits,
      uint32_round_trip pkt.desired_min_tx_interval fits.desired_fits,
      uint32_round_trip pkt.required_min_rx_interval fits.required_fits,
      uint32_round_trip pkt.required_min_echo_rx_interval fits.echo_fits,
    )
