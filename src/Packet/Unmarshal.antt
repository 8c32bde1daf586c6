-- ===== src/Packet/Unmarshal.antt =====
-- UnmarshalControlPacket and its helpers in internal/bfd/packet.go. The packet is filled in place
-- by the code, and its callers use it only where no error is returned: here it is the result.
use gobfd.Common.{
  ℕ, ◌+◌, ◌-◌, ◌/◌, List, [], none, some, Bool, not, ◌&&◌, bit_and, leb, ◌==◌, if◌then◌else◌,
  length, get_or, take, drop, uint32_at, Result, ok, err, ◌>>=◌, ◌>>◌, guard,
}
use gobfd.Packet.{
  state_code, state_of_code, AuthType, simple_password, keyed_md5, meticulous_keyed_md5, keyed_sha1,
  meticulous_keyed_sha1, auth_type_of_code, version, header_size, min_packet_size_no_auth,
  min_packet_size_with_auth, auth_len_md5, auth_len_sha1, md5_digest_size, sha1_digest_size,
  simple_password_min_len, simple_password_max_len, auth_simple_header_size, AuthSection,
  ControlPacket, Error, invalid_version, packet_too_short, invalid_length, length_exceeds_payload,
  zero_detect_mult, multipoint_set, zero_my_discriminator, zero_your_discriminator,
  invalid_auth_type, auth_section_truncated,
}

-- `pw_len` is a Go `int`; it is not negative, since the first test leaves `len` at least 4.
unfoldable pub unmarshal_simple_password : List ℕ → AuthType → ℕ → Result Error AuthSection
unmarshal_simple_password buf auth_type len = do
  guard (leb (auth_simple_header_size + simple_password_min_len) len) auth_section_truncated
  guard (leb len (length buf)) auth_section_truncated
  let pw_len = len - auth_simple_header_size
  guard (leb simple_password_min_len pw_len && leb pw_len simple_password_max_len)
      auth_section_truncated
  ok (record {
    auth_type = auth_type;
    len = len;
    key_id = get_or buf 2 0;
    auth_data = take pw_len (drop 3 buf);
    sequence_number = 0;
    digest = [];
  })

unfoldable pub unmarshal_hash_auth : List ℕ → AuthType → ℕ → ℕ → ℕ → Result Error AuthSection
unmarshal_hash_auth buf auth_type len expected_len digest_size = do
  guard (len == expected_len) invalid_length
  guard (leb expected_len (length buf)) auth_section_truncated
  ok (record {
    auth_type = auth_type;
    len = len;
    key_id = get_or buf 2 0;
    auth_data = [];
    sequence_number = uint32_at buf 4;
    digest = take digest_size (drop 8 buf);
  })

-- The `switch` on the type; the last clause is `default`.
unfoldable pub unmarshal_auth_body : AuthType → ℕ → List ℕ → Result Error AuthSection
unfolding unmarshal_simple_password unmarshal_hash_auth
unmarshal_auth_body simple_password len buf = unmarshal_simple_password buf simple_password len
unmarshal_auth_body keyed_md5 len buf =
    unmarshal_hash_auth buf keyed_md5 len auth_len_md5 md5_digest_size
unmarshal_auth_body meticulous_keyed_md5 len buf =
    unmarshal_hash_auth buf meticulous_keyed_md5 len auth_len_md5 md5_digest_size
unmarshal_auth_body keyed_sha1 len buf =
    unmarshal_hash_auth buf keyed_sha1 len auth_len_sha1 sha1_digest_size
unmarshal_auth_body meticulous_keyed_sha1 len buf =
    unmarshal_hash_auth buf meticulous_keyed_sha1 len auth_len_sha1 sha1_digest_size
unmarshal_auth_body _ len buf = err invalid_auth_type

unfoldable pub unmarshal_auth_section : List ℕ → Result Error AuthSection
unfolding unmarshal_auth_body
unmarshal_auth_section buf = do
  guard (leb 2 (length buf)) auth_section_truncated
  let len = get_or buf 1 0
  guard (leb len (length buf + header_size)) auth_section_truncated
  unmarshal_auth_body (auth_type_of_code (get_or buf 0 0)) len buf

-- `flags&mask != 0`.
abbrev pub flag : ℕ → ℕ → Bool
flag flags mask = not (bit_and flags mask == 0)

-- Bytes 0 to 3, and nothing of the rest.
unfoldable pub decode_header : List ℕ → ControlPacket
decode_header buf =
    let flags = get_or buf 1 0 in
    record {
      pkt_version = get_or buf 0 0 / 32;
      diag = bit_and (get_or buf 0 0) 31;
      state = state_of_code (flags / 64);
      poll = flag flags 32;
      final = flag flags 16;
      control_plane_independent = flag flags 8;
      auth_present = flag flags 4;
      demand = flag flags 2;
      multipoint = flag flags 1;
      detect_mult = get_or buf 2 0;
      length_field = get_or buf 3 0;
      my_discriminator = 0;
      your_discriminator = 0;
      desired_min_tx_interval = 0;
      required_min_rx_interval = 0;
      required_min_echo_rx_interval = 0;
      auth = none;
    }

-- Bytes 4 to 23.
unfoldable pub decode_body : List ℕ → ControlPacket → ControlPacket
decode_body buf pkt = record pkt {
  my_discriminator = uint32_at buf 4;
  your_discriminator = uint32_at buf 8;
  desired_min_tx_interval = uint32_at buf 12;
  required_min_rx_interval = uint32_at buf 16;
  required_min_echo_rx_interval = uint32_at buf 20;
}

-- Steps 1 to 5 of RFC 5880 section 6.8.6, on the decoded header.
unfoldable pub validate_header : ControlPacket → ℕ → Result Error (Unit {0})
validate_header pkt size = do
  guard (pkt.pkt_version == version) invalid_version
  let min_len = if pkt.auth_present then min_packet_size_with_auth else min_packet_size_no_auth
  guard (leb min_len pkt.length_field) invalid_length
  guard (leb pkt.length_field size) length_exceeds_payload
  guard (not (pkt.detect_mult == 0)) zero_detect_mult
  guard (not pkt.multipoint) multipoint_set

-- Steps 6 and 7, on the decoded body.
unfoldable pub validate_discriminators : ControlPacket → Result Error (Unit {0})
validate_discriminators pkt = do
  guard (not (pkt.my_discriminator == 0)) zero_my_discriminator
  guard
      (not (
        pkt.your_discriminator == 0
        && not (state_code pkt.state == 1)
        && not (state_code pkt.state == 0)))
      zero_your_discriminator

-- `buf[HeaderSize:pkt.Length]`, decoded if the A bit is set.
unfoldable pub unmarshal_auth : List ℕ → ControlPacket → Result Error ControlPacket
unfolding unmarshal_auth_section
unmarshal_auth buf pkt =
    if pkt.auth_present
    then (do
      section ← unmarshal_auth_section (drop header_size (take pkt.length_field buf))
      ok (record pkt { auth = some section }))
    else ok (record pkt { auth = none })

unfoldable pub unmarshal_control_packet : List ℕ → Result Error ControlPacket
unmarshal_control_packet buf = do
  guard (leb min_packet_size_no_auth (length buf)) packet_too_short
  let header = decode_header buf
  validate_header header (length buf)
  let pkt = decode_body buf header
  validate_discriminators pkt
  unmarshal_auth buf pkt
