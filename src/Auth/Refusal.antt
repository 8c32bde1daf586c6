-- ===== src/Auth/Refusal.antt =====
-- What verifyHash of internal/bfd/auth.go does to the sequence state when it accepts and refuses.
use gobfd.Common.{
  ℕ, ◌≡◌, ◌≢◌, inl, inr, refl, arith, List, some, true, Result, ok, err, Result-cases,
}
use gobfd.Packet.{ControlPacket, AuthSection, auth_type_code}
use gobfd.Auth.{
  AuthError, KeyStore, AuthKey, lookup_key, Authenticator, simple_password_auth, AuthState,
  HashParams, params_of, Crypto,
}
use gobfd.Auth.Verify.{
  validate_hash_auth, check_seq_window, verify_and_update_seq, verify_hash_checks, verify_hash,
  verify,
}

pub validate_hash_auth_ok :
    (pkt : ControlPacket) (p : HashParams) {a : AuthSection}
    → validate_hash_auth pkt p ≡ ok a
    → (pkt.auth ≡ some a)
      × (auth_type_code a.auth_type ≡ auth_type_code p.auth_type)
      × (a.len ≡ p.auth_len)
unfolding validate_hash_auth
validate_hash_auth_ok pkt p h = ground arith

pub checks_ok :
    (state : AuthState) (store : KeyStore) (pkt : ControlPacket) (buf : List ℕ) (n : ℕ)
    (p : HashParams) {r : AuthSection × AuthKey}
    → verify_hash_checks state store pkt buf n p ≡ ok r
    → (validate_hash_auth pkt p ≡ ok r.0)
      × (lookup_key store r.0.key_id ≡ ok r.1)
      × (check_seq_window state pkt r.0 p ≡ ok tt)
unfolding verify_hash_checks
checks_ok state store pkt buf n p h = ground arith

pub not_ok : {e : AuthError} → ◌≢◌ {A = Result AuthError (Unit {0})} (err e) (ok tt)
not_ok h = cc

module _ (crypto : Crypto) where
  -- The state changes only where the digest agrees.
  pub updated :
      (state : AuthState) (a : AuthSection) (key : AuthKey) (buf : List ℕ) (n : ℕ) (p : HashParams)
      → (verify_and_update_seq crypto state a key buf n p).outcome ≡ ok tt
      → (verify_and_update_seq crypto state a key buf n p).new_state
        ≡ record state { rcv_auth_seq = a.sequence_number; auth_seq_known = true }
  unfolding verify_and_update_seq
  updated state a key buf n p h = ground arith

  pub not_updated :
      (state : AuthState) (a : AuthSection) (key : AuthKey) (buf : List ℕ) (n : ℕ) (p : HashParams)
      {e : AuthError}
      → (verify_and_update_seq crypto state a key buf n p).outcome ≡ err e
      → (verify_and_update_seq crypto state a key buf n p).new_state ≡ state
  unfolding verify_and_update_seq
  not_updated state a key buf n p h = ground arith

  pub verify_hash_accepts :
      (state : AuthState) (store : KeyStore) (pkt : ControlPacket) (buf : List ℕ) (n : ℕ)
      (p : HashParams)
      → (verify_hash crypto state store pkt buf n p).outcome ≡ ok tt
      → (a : AuthSection) × (pkt.auth ≡ some a)
        × (check_seq_window state pkt a p ≡ ok tt)
        × ((verify_hash crypto state store pkt buf n p).new_state
            ≡ record state { rcv_auth_seq = a.sequence_number; auth_seq_known = true })
  unfolding verify_hash
  verify_hash_accepts state store pkt buf n p h =
      elim (Result-cases (verify_hash_checks state store pkt buf n p)) [
        | inl ((a, key), e) ↦
            let (va, _, window) = checks_ok state store pkt buf n p e in
            (
              a,
              (validate_hash_auth_ok pkt p va).0,
              window,
              rw (e, verify_hash) (updated state a key buf n p (rw (e, verify_hash) at h)),
            )
        | inr (x, e) ↦ absurd (not_ok (rw (e, verify_hash) at h))
      ]

  pub verify_hash_refuses :
      (state : AuthState) (store : KeyStore) (pkt : ControlPacket) (buf : List ℕ) (n : ℕ)
      (p : HashParams) {x : AuthError}
      → (verify_hash crypto state store pkt buf n p).outcome ≡ err x
      → (verify_hash crypto state store pkt buf n p).new_state ≡ state
  unfolding verify_hash
  verify_hash_refuses state store pkt buf n p h =
      elim (Result-cases (verify_hash_checks state store pkt buf n p)) [
        | inl ((a, key), e) ↦
            rw (e, verify_hash) (not_updated state a key buf n p (rw (e, verify_hash) at h))
        | inr (x, e) ↦ rw (e, verify_hash)
      ]

  -- A packet that is refused, for whatever reason and by any of the five authenticators, leaves the
  -- sequence state as it was.
  pub verify_refused_unchanged :
      (auth : Authenticator) (state : AuthState) (store : KeyStore) (pkt : ControlPacket)
      (buf : List ℕ) (n : ℕ) {x : AuthError}
      → (verify crypto auth state store pkt buf n).outcome ≡ err x
      → (verify crypto auth state store pkt buf n).new_state ≡ state
  unfolding verify
  verify_refused_unchanged simple_password_auth state store pkt buf n h = refl
  verify_refused_unchanged _ state store pkt buf n h =
      verify_hash_refuses state store pkt buf n (params_of _) h
