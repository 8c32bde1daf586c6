-- ===== src/Auth.antt =====
-- Authentication of BFD Control packets: internal/bfd/auth.go. MD5 and SHA1 are functions that the
-- development is given, with the length of their digests. A call that can change the session's
-- authentication state, the packet or a buffer returns them.
pub mod Window
pub mod Sign
pub mod Verify
pub mod Refusal
pub mod Replay
pub mod Sizes
pub mod Accepted
pub mod Carrier
pub mod Interop
use gobfd.Common.{
  ℕ, ◌+◌, ◌-◌, ◌*◌, ◌%◌, ◌^◌, ◌≡◌, List, [], ◌∷◌, ◌++◌, Option, none, some, Bool, true, false, not,
  ◌&&◌, ◌||◌, ltb, leb, ◌==◌, if◌then◌else◌, length, take, drop, replicate, write_at, Result, ok,
  err, ◌>>=◌, ◌>>◌, guard, error_of,
}
use gobfd.Packet.{
  AuthType, no_auth, simple_password, keyed_md5, meticulous_keyed_md5, keyed_sha1,
  meticulous_keyed_sha1, unknown, auth_type_code, header_size, auth_len_md5, auth_len_sha1,
  md5_digest_size, sha1_digest_size, auth_simple_header_size, AuthSection, ControlPacket, Error,
}
use gobfd.Packet.Marshal.{marshal_control_packet}

pub data AuthError : Type 0 where
  auth_key_not_found auth_type_mismatch auth_digest_mismatch auth_password_mismatch : AuthError
  auth_seq_out_of_window auth_missing_section auth_len_mismatch auth_key_type_mismatch : AuthError
  auth_secret_invalid auth_wire_missing : AuthError
  marshal_failed : Error → AuthError

pub record AuthKey : Type 0 where
  pub id : ℕ
  pub key_type : AuthType
  pub secret : List ℕ

-- `StaticAuthKeyStore`; the map as an association list, the latest entry first.
pub record KeyStore : Type 0 where
  pub keys : List (ℕ × AuthKey)
  pub current_key : AuthKey

unfoldable pub find_key : ℕ → List (ℕ × AuthKey) → Option AuthKey
find_key id [] = none
find_key id ((i, key) ∷ rest) = if i == id then some key else find_key id rest

unfoldable pub lookup_key : KeyStore → ℕ → Result AuthError AuthKey
unfolding find_key
lookup_key store id = elim (find_key id store.keys) [
  | none ↦ err auth_key_not_found
  | some key ↦ ok key
]

unfoldable pub validate_auth_key_type : AuthType → ℕ → Result AuthError (Unit {0})
validate_auth_key_type simple_password n = guard (leb 1 n && leb n 16) auth_secret_invalid
validate_auth_key_type keyed_md5 n = guard (leb 1 n && leb n 16) auth_secret_invalid
validate_auth_key_type meticulous_keyed_md5 n = guard (leb 1 n && leb n 16) auth_secret_invalid
validate_auth_key_type keyed_sha1 n = guard (leb 1 n && leb n 20) auth_secret_invalid
validate_auth_key_type meticulous_keyed_sha1 n = guard (leb 1 n && leb n 20) auth_secret_invalid
validate_auth_key_type _ n = err auth_type_mismatch

unfoldable pub validate_auth_key : AuthKey → Result AuthError (Unit {0})
unfolding validate_auth_key_type
validate_auth_key key = validate_auth_key_type key.key_type (length key.secret)

-- The loop over the additional keys; `keys[key.ID] = key` replaces an earlier key with that id.
unfoldable pub add_keys : List (ℕ × AuthKey) → List AuthKey → Result AuthError (List (ℕ × AuthKey))
unfolding validate_auth_key
add_keys keys [] = ok keys
add_keys keys (key ∷ rest) =
    let more = add_keys ((key.id, key) ∷ keys) rest in validate_auth_key key >> more

unfoldable pub new_static_auth_key_store : AuthKey → List AuthKey → Result AuthError KeyStore
unfolding add_keys
new_static_auth_key_store current additional = do
  validate_auth_key current
  keys ← add_keys ((current.id, current) ∷ []) additional
  ok (record { keys = keys; current_key = current })

-- The implementations of the interface `Authenticator`.
pub data Authenticator : Type 0 where
  simple_password_auth keyed_md5_auth meticulous_keyed_md5_auth keyed_sha1_auth : Authenticator
  meticulous_keyed_sha1_auth : Authenticator

unfoldable pub new_authenticator : AuthType → Result AuthError Authenticator
new_authenticator simple_password = ok simple_password_auth
new_authenticator keyed_md5 = ok keyed_md5_auth
new_authenticator meticulous_keyed_md5 = ok meticulous_keyed_md5_auth
new_authenticator keyed_sha1 = ok keyed_sha1_auth
new_authenticator meticulous_keyed_sha1 = ok meticulous_keyed_sha1_auth
new_authenticator _ = err auth_type_mismatch

-- Every implementation of the repository has a type, so `ok` is always true.
unfoldable pub authenticator_type : Authenticator → AuthType
authenticator_type simple_password_auth = simple_password
authenticator_type keyed_md5_auth = keyed_md5
authenticator_type meticulous_keyed_md5_auth = meticulous_keyed_md5
authenticator_type keyed_sha1_auth = keyed_sha1
authenticator_type meticulous_keyed_sha1_auth = meticulous_keyed_sha1

pub record AuthState : Type 0 where
  pub state_type : AuthType
  pub rcv_auth_seq : ℕ
  pub xmit_auth_seq : ℕ
  pub auth_seq_known : Bool

-- `random` is what `rand.Read` put into the four bytes.
unfoldable pub new_auth_state : AuthType → ℕ → AuthState
new_auth_state t random = record {
  state_type = t;
  rcv_auth_seq = 0;
  xmit_auth_seq = random;
  auth_seq_known = false;
}

-- Subtraction of two uint32 values.
abbrev pub sub_uint32 : ℕ → ℕ → ℕ
sub_uint32 a b = (a + 2 ^ 32 - b) % 2 ^ 32

unfoldable pub seq_in_window : ℕ → ℕ → ℕ → Bool
seq_in_window seq lo hi = leb (sub_uint32 seq lo) (sub_uint32 hi lo)

pub record HashParams : Type 0 where
  pub auth_type : AuthType
  pub auth_len : ℕ
  pub digest_size : ℕ
  pub meticulous : Bool

abbrev pub hash_params_md5 : HashParams
hash_params_md5 = record {
  auth_type = keyed_md5;
  auth_len = auth_len_md5;
  digest_size = md5_digest_size;
  meticulous = false;
}

abbrev pub hash_params_sha1 : HashParams
hash_params_sha1 = record {
  auth_type = keyed_sha1;
  auth_len = auth_len_sha1;
  digest_size = sha1_digest_size;
  meticulous = false;
}

-- The parameters that each digest authenticator passes on.
unfoldable pub params_of : Authenticator → HashParams
params_of keyed_md5_auth = hash_params_md5
params_of meticulous_keyed_md5_auth = record hash_params_md5 {
  meticulous = true;
  auth_type = meticulous_keyed_md5;
}
params_of keyed_sha1_auth = hash_params_sha1
params_of meticulous_keyed_sha1_auth = record hash_params_sha1 {
  meticulous = true;
  auth_type = meticulous_keyed_sha1;
}
params_of simple_password_auth = hash_params_md5

-- MD5 and SHA1 of Go's standard library.
pub record Crypto : Type 0 where
  pub md5 : List ℕ → List ℕ
  pub sha1 : List ℕ → List ℕ
  pub length-md5 : (bytes : List ℕ) → length (md5 bytes) ≡ 16
  pub length-sha1 : (bytes : List ℕ) → length (sha1 bytes) ≡ 20

unfoldable pub compute_digest : Crypto → List ℕ → HashParams → List ℕ
compute_digest crypto bytes p =
    if p.digest_size == md5_digest_size then crypto.md5 bytes else crypto.sha1 bytes

-- `make([]byte, size)` with `copy` of the secret: cut off or padded with zeros.
abbrev pub padded_key : ℕ → List ℕ → List ℕ
padded_key size secret = write_at 0 (take size secret) (replicate size 0)

-- Where the digest starts: behind the header and eight bytes of the section.
abbrev pub digest_offset : ℕ
digest_offset = header_size + 8
