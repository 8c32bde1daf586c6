-- ===== src/Auth/Sign.antt =====
-- The `Sign` methods of internal/bfd/auth.go, and signHash with its helpers.
use gobfd.Common.{
  ℕ, ◌+◌, ◌%◌, ◌^◌, List, [], Option, none, some, true, length, take, drop, write_at, Result, ok,
  err,
}
use gobfd.Packet.{simple_password, auth_simple_header_size, AuthSection, ControlPacket, Error}
use gobfd.Packet.Marshal.{marshal_control_packet}
use gobfd.Auth.{
  AuthError, marshal_failed, AuthKey, KeyStore, Authenticator, simple_password_auth, AuthState,
  HashParams, params_of, Crypto, compute_digest, padded_key, digest_offset,
}

-- What a call of `Sign` leaves behind: the state, the packet and the buffer, and its error.
pub record Signed : Type 0 where
  pub new_state : AuthState
  pub signed_packet : ControlPacket
  pub buffer : List ℕ
  pub error : Option AuthError

unfoldable pub build_auth_section : AuthKey → AuthState → HashParams → AuthSection
build_auth_section key state p = record {
  auth_type = p.auth_type;
  len = p.auth_len;
  key_id = key.id;
  auth_data = [];
  sequence_number = state.xmit_auth_seq;
  digest = padded_key p.digest_size key.secret;
}

-- `len(key.Secret)` is converted to uint8 after the header size is added.
unfoldable pub sign_simple_password : AuthState → KeyStore → ControlPacket → List ℕ → Signed
sign_simple_password state store pkt buf =
    let key = store.current_key in
    record {
      new_state = state;
      signed_packet = record pkt {
        auth = some (record {
          auth_type = simple_password;
          len = (auth_simple_header_size + length key.secret) % 256;
          key_id = key.id;
          auth_data = key.secret;
          sequence_number = 0;
          digest = [];
        });
        auth_present = true;
      };
      buffer = buf;
      error = none;
    }

module _ (crypto : Crypto) where
  unfoldable pub compute_and_place_digest : List ℕ → ℕ → HashParams → List ℕ
  unfolding compute_digest
  compute_and_place_digest buf n p =
      write_at digest_offset (compute_digest crypto (take n buf) p) buf

  unfoldable pub copy_digest : List ℕ → HashParams → List ℕ
  copy_digest buf p = take p.digest_size (drop digest_offset buf)

  -- The part of signHash after the packet was serialised with the key in the digest's place.
  unfoldable pub finish_sign :
      AuthState → ControlPacket → AuthSection → HashParams → List ℕ → Result Error ℕ → Signed
  unfolding compute_and_place_digest copy_digest
  finish_sign state pkt section p buf (err e) = record {
    new_state = state;
    signed_packet = pkt;
    buffer = buf;
    error = some (marshal_failed e);
  }
  finish_sign state pkt section p buf (ok n) =
      let placed = compute_and_place_digest buf n p in
      record {
        new_state = state;
        signed_packet = record pkt {
          auth = some (record section { digest = copy_digest placed p });
        };
        buffer = placed;
        error = none;
      }

  unfoldable pub sign_hash : AuthState → KeyStore → ControlPacket → List ℕ → HashParams → Signed
  sign_hash state store pkt buf p =
      let key = store.current_key in
      let next = record state { xmit_auth_seq = (state.xmit_auth_seq + 1) % 2 ^ 32 } in
      let section = build_auth_section key next p in
      let with_key = record pkt { auth = some section; auth_present = true } in
      let (written, result) = marshal_control_packet with_key buf in
      finish_sign next with_key section p written result

  -- The dispatch of the interface call `auth.Sign`.
  unfoldable pub sign : Authenticator → AuthState → KeyStore → ControlPacket → List ℕ → Signed
  sign simple_password_auth state store pkt buf = sign_simple_password state store pkt buf
  sign auth state store pkt buf = sign_hash state store pkt buf (params_of auth)
