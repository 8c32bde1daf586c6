-- ===== src/Auth/Verify.antt =====
-- The `Verify` methods of internal/bfd/auth.go, verifyHash with its helpers, and what an accepted
-- or refused packet does to the session's authentication state.
use gobfd.Common.{
  ℕ, ◌+◌, ◌*◌, ◌%◌, ◌^◌, List, [], ◌∷◌, none, some, Bool, true, false, not, ◌&&◌, leb, ◌==◌,
  if◌then◌else◌, length, take, replicate, write_at, Result, ok, err, ◌>>=◌, ◌>>◌, guard,
}
use gobfd.Packet.{
  simple_password, auth_type_code, auth_simple_header_size, AuthSection, ControlPacket,
}
use gobfd.Auth.{
  AuthError, auth_type_mismatch, auth_digest_mismatch, auth_password_mismatch,
  auth_seq_out_of_window, auth_missing_section, auth_len_mismatch, auth_wire_missing, AuthKey,
  KeyStore, lookup_key, Authenticator, simple_password_auth, AuthState, seq_in_window, HashParams,
  params_of, Crypto, compute_digest, padded_key, digest_offset,
}

-- `subtle.ConstantTimeCompare` of two slices: 1 exactly if they are equal.
abbrev pub bytes_eq : List ℕ → List ℕ → Bool
bytes_eq [] [] = true
bytes_eq (x ∷ xs) (y ∷ ys) = x == y && bytes_eq xs ys
bytes_eq _ _ = false

abbrev pub require_auth_section : ControlPacket → Result AuthError AuthSection
require_auth_section pkt = elim pkt.auth [ none ↦ err auth_missing_section | some a ↦ ok a ]

-- What a call of `Verify` leaves behind: the state, the buffer, and its error.
pub record Verified : Type 0 where
  pub new_state : AuthState
  pub buffer : List ℕ
  pub outcome : Result AuthError (Unit {0})

unfoldable pub verify_password : AuthKey → AuthSection → Result AuthError (Unit {0})
verify_password key auth = do
  guard (auth.len == (auth_simple_header_size + length key.secret) % 256) auth_len_mismatch
  guard (bytes_eq auth.auth_data key.secret) auth_password_mismatch

unfoldable pub verify_simple_password : KeyStore → ControlPacket → Result AuthError (Unit {0})
unfolding verify_password lookup_key
verify_simple_password store pkt = do
  auth ← require_auth_section pkt
  guard (auth_type_code auth.auth_type == auth_type_code simple_password) auth_type_mismatch
  key ← lookup_key store auth.key_id
  verify_password key auth

unfoldable pub validate_hash_auth : ControlPacket → HashParams → Result AuthError AuthSection
validate_hash_auth pkt p = do
  auth ← require_auth_section pkt
  guard (auth_type_code auth.auth_type == auth_type_code p.auth_type) auth_type_mismatch
  guard (auth.len == p.auth_len) auth_len_mismatch
  ok auth

unfoldable pub check_seq_window :
    AuthState → ControlPacket → AuthSection → HashParams → Result AuthError (Unit {0})
unfolding seq_in_window
check_seq_window state pkt auth p =
    if not state.auth_seq_known
    then ok tt
    else (let hi = (state.rcv_auth_seq + 3 * pkt.detect_mult) % 2 ^ 32 in
        let lo = if p.meticulous then (state.rcv_auth_seq + 1) % 2 ^ 32 else state.rcv_auth_seq in
        guard (seq_in_window auth.sequence_number lo hi) auth_seq_out_of_window)

-- `n` is the count of valid bytes.
unfoldable pub validate_auth_wire : List ℕ → ℕ → HashParams → Result AuthError (Unit {0})
validate_auth_wire buf n p =
    guard (leb (digest_offset + p.digest_size) n && leb n (length buf)) auth_wire_missing

-- The digest's place, cleared and filled with the key.
unfoldable pub place_key : List ℕ → AuthKey → HashParams → List ℕ
place_key buf key p =
    write_at digest_offset key.secret (write_at digest_offset (replicate p.digest_size 0) buf)

-- The checks of verifyHash that come before the digest.
unfoldable pub verify_hash_checks :
    AuthState
    → KeyStore
    → ControlPacket
    → List ℕ
    → ℕ
    → HashParams
    → Result AuthError (AuthSection × AuthKey)
verify_hash_checks state store pkt buf n p = do
  auth ← validate_hash_auth pkt p
  key ← lookup_key store auth.key_id
  check_seq_window state pkt auth p
  validate_auth_wire buf n p
  ok (auth, key)

module _ (crypto : Crypto) where
  unfoldable pub verify_and_update_seq :
      AuthState → AuthSection → AuthKey → List ℕ → ℕ → HashParams → Verified
  verify_and_update_seq state auth key buf n p =
      let saved = padded_key p.digest_size auth.digest in
      let placed = place_key buf key p in
      let computed = compute_digest crypto (take n placed) p in
      if bytes_eq saved computed
      then record {
        new_state = record state { rcv_auth_seq = auth.sequence_number; auth_seq_known = true };
        buffer = placed;
        outcome = ok tt;
      }
      else record { new_state = state; buffer = placed; outcome = err auth_digest_mismatch }

  unfoldable pub verify_hash :
      AuthState → KeyStore → ControlPacket → List ℕ → ℕ → HashParams → Verified
  verify_hash state store pkt buf n p = elim (verify_hash_checks state store pkt buf n p) [
    | err e ↦ record { new_state = state; buffer = buf; outcome = err e }
    | ok (auth, key) ↦ verify_and_update_seq state auth key buf n p
  ]

  -- The dispatch of the interface call `auth.Verify`.
  unfoldable pub verify :
      Authenticator → AuthState → KeyStore → ControlPacket → List ℕ → ℕ → Verified
  verify simple_password_auth state store pkt buf n = record {
    new_state = state;
    buffer = buf;
    outcome = verify_simple_password store pkt;
  }
  verify auth state store pkt buf n = verify_hash state store pkt buf n (params_of auth)
