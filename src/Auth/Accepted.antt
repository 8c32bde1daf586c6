-- ===== src/Auth/Accepted.antt =====
-- The digest in its place: placing keys and digests in Sign and Verify of internal/bfd/auth.go.
use gobfd.Common.{
  ℕ, zero, suc, ◌+◌, ◌^◌, ◌<◌, ◌≤◌, ◌≡◌, refl, sym, ap, ◌∙◌, List, [], ◌∷◌, ◌++◌, none, some, true,
  arith, length, take, drop, replicate, write_at, length-write_at, length-replicate, length-append,
  write_at-append, write_at_front, take_all, drop_all, take-append, drop-append, ok,
}
use mathlib.Core.List.{append-nil, append_assoc}
use gobfd.Packet.{auth_type_code, AuthSection, ControlPacket}
use gobfd.Packet.AuthBytes.{HasShape, auth_bytes, hash_bytes}
use gobfd.Auth.{
  AuthKey, KeyStore, lookup_key, Authenticator, simple_password_auth, keyed_md5_auth,
  meticulous_keyed_md5_auth, keyed_sha1_auth, meticulous_keyed_sha1_auth, AuthState, HashParams,
  params_of, Crypto, compute_digest, padded_key,
}
use gobfd.Auth.Sign.{Signed, compute_and_place_digest, copy_digest, finish_sign}
use gobfd.Auth.Verify.{
  bytes_eq, validate_hash_auth, check_seq_window, validate_auth_wire, place_key, verify_hash_checks,
  verify_and_update_seq,
}
use gobfd.Auth.Replay.{IsDigest}

pub bytes_eq_self : (l : List ℕ) → bytes_eq l l ≡ true
bytes_eq_self [] = refl
bytes_eq_self (x ∷ l) = ground (arith, bytes_eq_self l)

-- A list of the right length replaces all of another.
write_all : (new old : List ℕ) (n : ℕ) → length new ≡ n → length old ≡ n → write_at 0 new old ≡ new
write_all new old n e f =
    write_at_front new old (omega arith)
    ∙ ap (λ l. new ++ l) (drop_all (length new) old (omega arith))
    ∙ append-nil new

take_fits : (n : ℕ) (l : List ℕ) → length l ≤ n → take n l ≡ l
take_fits zero [] h = refl
take_fits zero (x ∷ l) h = absurd (omega arith)
take_fits (suc n) [] h = refl
take_fits (suc n) (x ∷ l) h = ap (λ r. x ∷ r) (take_fits n l (omega arith))

pub padded_full : (n : ℕ) (l : List ℕ) → length l ≡ n → padded_key n l ≡ l
padded_full n l e =
    ap (λ x. write_at 0 x (replicate n 0)) (take_all n l e)
    ∙ write_all l (replicate n 0) n e (length-replicate {A = ℕ} n 0)

pub length-padded_key : (n : ℕ) (l : List ℕ) → length (padded_key n l) ≡ n
length-padded_key n l = length-write_at 0 (take n l) (replicate n 0) ∙ length-replicate {A = ℕ} n 0

-- The key in the place of a digest behind 32 bytes.
pub key_placed :
    (pre digest : List ℕ) (key : AuthKey) (p : HashParams)
    → length pre ≡ 32
    → length digest ≡ p.digest_size
    → length key.secret ≤ p.digest_size
    → place_key (pre ++ digest) key p ≡ pre ++ padded_key p.digest_size key.secret
unfolding place_key
key_placed pre digest key p l d fits =
    let zeros = replicate p.digest_size 0 in
    let z : length zeros ≡ p.digest_size = length-replicate {A = ℕ} p.digest_size 0 in
    let cleared : write_at 32 zeros (pre ++ digest) ≡ pre ++ zeros =
      write_at-append pre zeros digest 32 l
      ∙ ap (λ x. pre ++ x) (write_all zeros digest p.digest_size z d) in
    ap (write_at 32 key.secret) cleared
    ∙ write_at-append pre key.secret zeros 32 l
    ∙ ap (λ x. pre ++ write_at 0 x zeros) (sym (take_fits p.digest_size key.secret fits))

-- A digest in the place of the key, and read from there.
pub digest_placed :
    (pre key digest rest : List ℕ) (n : ℕ)
    → length pre ≡ 32
    → length key ≡ n
    → length digest ≡ n
    → take n (drop 32 (write_at 32 digest (pre ++ (key ++ rest)))) ≡ digest
digest_placed pre key digest rest n l k d =
    let placed : write_at 32 digest (pre ++ (key ++ rest))
        ≡ pre ++ (digest ++ drop n (key ++ rest)) =
      write_at-append pre digest (key ++ rest) 32 l
      ∙ ap (λ x. pre ++ x)
          (write_at_front digest (key ++ rest) (omega (arith, length-append key rest))
            ∙ ap (λ m. digest ++ drop m (key ++ rest)) d) in
    ap (λ x. take n (drop 32 x)) placed
    ∙ ap (take n) (drop-append 32 pre _ l)
    ∙ take-append n digest _ d

-- What the four sets of parameters have in common.
pub record IsHash (p : HashParams) : Type 0 where
  pub size : p.auth_len ≡ 8 + p.digest_size
  pub small : p.digest_size ≤ 20
  pub shape :
      (a : AuthSection)
      → a.len ≡ p.auth_len
      → length a.digest ≡ p.digest_size
      → a.sequence_number < 2 ^ 32
      → a.auth_data ≡ []
      → HasShape p.auth_type a
  pub layout : (a : AuthSection) → auth_bytes p.auth_type a ≡ hash_bytes p.auth_type a
  pub digest_length :
      (crypto : Crypto) (bytes : List ℕ) → length (compute_digest crypto bytes p) ≡ p.digest_size

pub params-IsHash : (auth : Authenticator) → IsDigest auth → IsHash (params_of auth)
unfolding params_of compute_digest
params-IsHash simple_password_auth d = absurd d
params-IsHash keyed_md5_auth d = record {
  size = refl;
  small = omega arith;
  shape = λ a l g s e. (l, g, s, e);
  layout = λ a. refl;
  digest_length = λ crypto bytes. crypto.length-md5 bytes;
}
params-IsHash meticulous_keyed_md5_auth d = record {
  size = refl;
  small = omega arith;
  shape = λ a l g s e. (l, g, s, e);
  layout = λ a. refl;
  digest_length = λ crypto bytes. crypto.length-md5 bytes;
}
params-IsHash keyed_sha1_auth d = record {
  size = refl;
  small = omega arith;
  shape = λ a l g s e. (l, g, s, e);
  layout = λ a. refl;
  digest_length = λ crypto bytes. crypto.length-sha1 bytes;
}
params-IsHash meticulous_keyed_sha1_auth d = record {
  size = refl;
  small = omega arith;
  shape = λ a l g s e. (l, g, s, e);
  layout = λ a. refl;
  digest_length = λ crypto bytes. crypto.length-sha1 bytes;
}

module _ (crypto : Crypto) (p : HashParams) (h : IsHash p) (pre : List ℕ)
    (l : length pre ≡ 32) where
  -- The end of signHash, where the packet was written with the key in the digest's place.
  pub finish_signed :
      (state : AuthState) (pkt : ControlPacket) (section : AuthSection) (key rest : List ℕ)
      → length key ≡ p.digest_size
      → let digest = compute_digest crypto (pre ++ key) p in
        finish_sign crypto state pkt section p (pre ++ (key ++ rest)) (ok (32 + p.digest_size))
        ≡ record {
          new_state = state;
          signed_packet = record pkt { auth = some (record section { digest = digest }) };
          buffer = write_at 32 digest (pre ++ (key ++ rest));
          error = none;
        }
  unfolding finish_sign compute_and_place_digest copy_digest
  finish_signed state pkt section key rest k =
      let taken : take (32 + p.digest_size) (pre ++ (key ++ rest)) ≡ pre ++ key =
        ap (take (32 + p.digest_size)) (sym (append_assoc pre key rest))
        ∙ take-append (32 + p.digest_size) (pre ++ key) rest
            (omega (arith, length-append pre key)) in
      let digest = compute_digest crypto (pre ++ key) p in
      let outcome : List ℕ → List ℕ → Signed = λ copied placed. record {
        new_state = state;
        signed_packet = record pkt { auth = some (record section { digest = copied }) };
        buffer = write_at 32 placed (pre ++ (key ++ rest));
        error = none;
      } in
      rw taken (
        ap (λ (c : List ℕ). outcome c digest)
          (digest_placed pre key digest rest p.digest_size l k
            (h.digest_length crypto (pre ++ key))))

  -- The end of verifyHash on a packet whose digest is the right one.
  pub digest_accepted :
      (state : AuthState) (section : AuthSection) (key : AuthKey)
      → length key.secret ≤ p.digest_size
      → section.digest ≡ compute_digest crypto (pre ++ padded_key p.digest_size key.secret) p
      → let r =
          verify_and_update_seq crypto state section key
            (pre ++ section.digest)
            (32 + p.digest_size)
            p in
        (r.outcome ≡ ok tt)
        × (r.new_state
            ≡ record state { rcv_auth_seq = section.sequence_number; auth_seq_known = true })
  unfolding verify_and_update_seq
  digest_accepted state section key fits same =
      let padded = padded_key p.digest_size key.secret in
      let d : length section.digest ≡ p.digest_size =
        ap (λ x. length x) same ∙ h.digest_length crypto (pre ++ padded) in
      let placed = key_placed pre section.digest key p l d fits in
      let taken : take (32 + p.digest_size) (pre ++ padded) ≡ pre ++ padded =
        take_all (32 + p.digest_size) (pre ++ padded)
          (omega (arith, length-append pre padded, length-padded_key p.digest_size key.secret)) in
      let equal : bytes_eq (padded_key p.digest_size section.digest) (
            compute_digest crypto
              (take (32 + p.digest_size) (place_key (pre ++ section.digest) key p)) p)
          ≡ true =
        ap
          (λ x.
            bytes_eq (padded_key p.digest_size section.digest)
              (compute_digest crypto (take (32 + p.digest_size) x) p))
          placed
        ∙ ap (λ x. bytes_eq (padded_key p.digest_size section.digest) (compute_digest crypto x p))
            taken
        ∙ ap (λ x. bytes_eq x (compute_digest crypto (pre ++ padded) p))
            (padded_full p.digest_size section.digest d ∙ same)
        ∙ bytes_eq_self (compute_digest crypto (pre ++ padded) p) in
      (rw equal, rw equal)

-- The checks of verifyHash before the digest.
pub checks_passed :
    (state : AuthState) (store : KeyStore) (pkt : ControlPacket) (bytes : List ℕ) (n : ℕ)
    (p : HashParams) (section : AuthSection) (key : AuthKey)
    → pkt.auth ≡ some section
    → section.auth_type ≡ p.auth_type
    → section.len ≡ p.auth_len
    → lookup_key store section.key_id ≡ ok key
    → check_seq_window state pkt section p ≡ ok tt
    → 32 + p.digest_size ≤ n
    → n ≤ length bytes
    → verify_hash_checks state store pkt bytes n p ≡ ok (section, key)
unfolding verify_hash_checks validate_hash_auth validate_auth_wire
checks_passed state store pkt bytes n p section key a t len k w lo hi =
    ground (arith, a, ap (λ x. auth_type_code x) t, len, k, w)
