-- ===== src/Packet/Marshal.antt =====
-- MarshalControlPacket and marshalAuthSection of internal/bfd/packet.go. The buffer is written in
-- place: each function returns it as it leaves it, on errors too. A slice's capacity is taken to be
-- its length.
use gobfd.Common.{
  ℕ, ◌+◌, ◌*◌, ◌%◌, List, [], ◌∷◌, ◌++◌, Option, none, some, Bool, bit_and, bit_or, ltb,
  if◌then◌else◌, length, take, drop, write_at, uint32_bytes, Result, ok, err,
}
use gobfd.Packet.{
  state_code, AuthType, simple_password, keyed_md5, meticulous_keyed_md5, keyed_sha1,
  meticulous_keyed_sha1, auth_type_code, header_size, AuthSection, ControlPacket, Error,
  buf_too_small, invalid_auth_type, panic,
}

-- `if on { flags |= mask }`.
abbrev pub or_flag : Bool → ℕ → ℕ → ℕ
or_flag on mask flags = if on then bit_or flags mask else flags

unfoldable pub pack_flags : ControlPacket → ℕ
pack_flags pkt = or_flag pkt.multipoint 1 (
    or_flag pkt.demand 2 (
      or_flag pkt.auth_present 4 (
        or_flag pkt.control_plane_independent 8
          (or_flag pkt.final 16 (or_flag pkt.poll 32 (state_code pkt.state * 64 % 256))))))

unfoldable pub write_header : ControlPacket → ℕ → List ℕ → List ℕ
write_header pkt total_len buf =
    let b0 = write_at 0 (bit_or (pkt.pkt_version * 32 % 256) (bit_and pkt.diag 31) ∷ []) buf in
    let b1 = write_at 1 (pack_flags pkt ∷ []) b0 in
    let b2 = write_at 2 (pkt.detect_mult ∷ []) b1 in
    let b3 = write_at 3 (total_len % 256 ∷ []) b2 in
    let b4 = write_at 4 (uint32_bytes pkt.my_discriminator) b3 in
    let b8 = write_at 8 (uint32_bytes pkt.your_discriminator) b4 in
    let b12 = write_at 12 (uint32_bytes pkt.desired_min_tx_interval) b8 in
    let b16 = write_at 16 (uint32_bytes pkt.required_min_rx_interval) b12 in
    write_at 20 (uint32_bytes pkt.required_min_echo_rx_interval) b16

-- The layout that the four digest types share.
unfoldable pub marshal_hash_body : AuthSection → List ℕ → List ℕ × Option Error
marshal_hash_body auth buf = if ltb (length buf) 8 then (buf, some panic) else (
  write_at 8 auth.digest
      (write_at 4 (uint32_bytes auth.sequence_number) (write_at 2 (auth.key_id ∷ 0 ∷ []) buf)),
  none,
)

-- The `switch` on the type; the last clause is `default`.
unfoldable pub marshal_auth_body : AuthType → AuthSection → List ℕ → List ℕ × Option Error
unfolding marshal_hash_body
marshal_auth_body simple_password auth buf =
    if ltb (length buf) 3
    then (buf, some panic)
    else (write_at 3 auth.auth_data (write_at 2 (auth.key_id ∷ []) buf), none)
marshal_auth_body keyed_md5 auth buf = marshal_hash_body auth buf
marshal_auth_body meticulous_keyed_md5 auth buf = marshal_hash_body auth buf
marshal_auth_body keyed_sha1 auth buf = marshal_hash_body auth buf
marshal_auth_body meticulous_keyed_sha1 auth buf = marshal_hash_body auth buf
marshal_auth_body _ auth buf = (buf, some invalid_auth_type)

unfoldable pub marshal_auth_section : AuthSection → List ℕ → List ℕ × Option Error
unfolding marshal_auth_body
marshal_auth_section auth buf =
    if ltb (length buf) auth.len
    then (buf, some buf_too_small)
    else if ltb (length buf) 2
    then (buf, some panic)
    else marshal_auth_body auth.auth_type auth
        (write_at 0 (auth_type_code auth.auth_type ∷ auth.len ∷ []) buf)

-- `pkt.AuthPresent && pkt.Auth != nil`, with the section where that holds.
abbrev pub sent_auth : ControlPacket → Option AuthSection
sent_auth pkt = if pkt.auth_present then pkt.auth else none

abbrev pub auth_size : Option AuthSection → ℕ
auth_size none = 0
auth_size (some auth) = auth.len

abbrev pub marshal_result : ℕ → Option Error → Result Error ℕ
marshal_result n none = ok n
marshal_result n (some e) = err e

-- `marshalAuthSection(pkt.Auth, buf[HeaderSize:])` on a buffer that holds the header.
unfoldable pub marshal_rest : Option AuthSection → ℕ → List ℕ → List ℕ × Result Error ℕ
unfolding marshal_auth_section
marshal_rest none n buf = (buf, ok n)
marshal_rest (some auth) n buf =
    let (section, error) = marshal_auth_section auth (drop header_size buf) in
    (take header_size buf ++ section, marshal_result n error)

unfoldable pub marshal_control_packet : ControlPacket → List ℕ → List ℕ × Result Error ℕ
marshal_control_packet pkt buf =
    let total_len = header_size + auth_size (sent_auth pkt) in
    if ltb (length buf) total_len
    then (buf, err buf_too_small)
    else marshal_rest (sent_auth pkt) total_len (write_header pkt total_len buf)
