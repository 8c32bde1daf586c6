-- ===== src/Auth/Replay.antt =====
-- Sequence numbers in the Verify methods of the digest authenticators of internal/bfd/auth.go.
use gobfd.Common.{
  ℕ, ◌+◌, ◌*◌, ◌%◌, ◌^◌, ◌<◌, ◌≤◌, ◌≡◌, inl, inr, refl, arith, List, some, true, sym, ap, ◌∙◌, ok,
  err, Result-cases,
}
use gobfd.Packet.{ControlPacket, AuthSection}
use gobfd.Auth.{
  auth_seq_out_of_window, KeyStore, AuthKey, lookup_key, Authenticator, simple_password_auth,
  keyed_md5_auth, meticulous_keyed_md5_auth, keyed_sha1_auth, meticulous_keyed_sha1_auth, AuthState,
  HashParams, params_of, Crypto, sub_uint32,
}
use gobfd.Auth.Verify.{
  validate_hash_auth, check_seq_window, verify_hash_checks, verify_hash, verify,
}
use mathlib.Core.Path.{subst}
use gobfd.Auth.Refusal.{validate_hash_auth_ok, checks_ok, not_ok, updated, verify_hash_accepts}

abbrev pub IsMeticulous : Authenticator → Type 0
IsMeticulous meticulous_keyed_md5_auth = Unit
IsMeticulous meticulous_keyed_sha1_auth = Unit
IsMeticulous _ = ⊥

abbrev pub IsDigest : Authenticator → Type 0
IsDigest simple_password_auth = ⊥
IsDigest _ = Unit

-- The fields of a received packet and of the state fit their types.
pub record InRange (state : AuthState) (pkt : ControlPacket) (a : AuthSection) : Type 0 where
  pub section : pkt.auth ≡ some a
  pub seq_range : a.sequence_number < 2 ^ 32
  pub rcv_range : state.rcv_auth_seq < 2 ^ 32
  pub mult_range : pkt.detect_mult < 256
  pub mult_pos : 0 < pkt.detect_mult

window_advance :
    (p : HashParams) (state : AuthState) (pkt : ControlPacket) (a : AuthSection)
    → InRange state pkt a
    → state.auth_seq_known ≡ true
    → check_seq_window state pkt a p ≡ ok tt
    → (k : ℕ) × (k ≤ 3 * pkt.detect_mult)
      × (a.sequence_number ≡ (state.rcv_auth_seq + k) % 2 ^ 32)
      × (p.meticulous ≡ true → 1 ≤ k)
unfolding check_seq_window
window_advance p state pkt a r known h =
    (sub_uint32 a.sequence_number state.rcv_auth_seq, ground arith, omega arith, λ m. ground arith)

-- Where a packet's number is the last one received, the strict window refuses it.
same_number_refused :
    (p : HashParams) (state : AuthState) (pkt : ControlPacket) (a : AuthSection)
    → InRange state pkt a
    → p.meticulous ≡ true
    → state.auth_seq_known ≡ true
    → a.sequence_number ≡ state.rcv_auth_seq
    → check_seq_window state pkt a p ≡ err auth_seq_out_of_window
unfolding check_seq_window
same_number_refused p state pkt a r m known same = ground arith

meticulous_params : (auth : Authenticator) → IsMeticulous auth → (params_of auth).meticulous ≡ true
unfolding params_of
meticulous_params meticulous_keyed_md5_auth m = refl
meticulous_params meticulous_keyed_sha1_auth m = refl
meticulous_params simple_password_auth m = absurd m
meticulous_params keyed_md5_auth m = absurd m
meticulous_params keyed_sha1_auth m = absurd m

meticulous-IsDigest : (auth : Authenticator) → IsMeticulous auth → IsDigest auth
meticulous-IsDigest simple_password_auth m = absurd m
meticulous-IsDigest _ m = tt

-- The checks that a repeated packet passes before its number is looked at, and the one it fails.
repeated_checks :
    (new : AuthState) (store : KeyStore) (pkt : ControlPacket) (again : List ℕ) (m : ℕ)
    (p : HashParams) (a : AuthSection) (key : AuthKey)
    → validate_hash_auth pkt p ≡ ok a
    → lookup_key store a.key_id ≡ ok key
    → check_seq_window new pkt a p ≡ err auth_seq_out_of_window
    → verify_hash_checks new store pkt again m p ≡ err auth_seq_out_of_window
unfolding verify_hash_checks
repeated_checks new store pkt again m p a key v k w = rw (v, k, w)

module _ (crypto : Crypto) where
  repeated :
      (new : AuthState) (store : KeyStore) (pkt : ControlPacket) (again : List ℕ) (m : ℕ)
      (p : HashParams) (a : AuthSection) (key : AuthKey)
      → validate_hash_auth pkt p ≡ ok a
      → lookup_key store a.key_id ≡ ok key
      → check_seq_window new pkt a p ≡ err auth_seq_out_of_window
      → (verify_hash crypto new store pkt again m p).outcome ≡ err auth_seq_out_of_window
  unfolding verify_hash
  repeated new store pkt again m p a key v k w =
      rw (repeated_checks new store pkt again m p a key v k w, verify_hash)

  hash_replay :
      (state : AuthState) (store : KeyStore) (pkt : ControlPacket) (buf again : List ℕ) (n m : ℕ)
      (p : HashParams) (a : AuthSection)
      → p.meticulous ≡ true
      → InRange state pkt a
      → (verify_hash crypto state store pkt buf n p).outcome ≡ ok tt
      → (verify_hash crypto
          (verify_hash crypto state store pkt buf n p).new_state
          store
          pkt
          again
          m
          p).outcome
        ≡ err auth_seq_out_of_window
  unfolding verify_hash
  hash_replay state store pkt buf again n m p a strict r h =
      elim (Result-cases (verify_hash_checks state store pkt buf n p)) [
        | inl ((b, key), e) ↦
            let (va, lk, _) = checks_ok state store pkt buf n p e in
            let same : a ≡ b = cc (r.section, (validate_hash_auth_ok pkt p va).0) in
            let next : AuthState = record state {
              rcv_auth_seq = b.sequence_number;
              auth_seq_known = true;
            } in
            let moved : (verify_hash crypto state store pkt buf n p).new_state ≡ next =
              rw (e, verify_hash) (updated crypto state b key buf n p (rw (e, verify_hash) at h)) in
            let fits : InRange next pkt b = record {
              section = (validate_hash_auth_ok pkt p va).0;
              seq_range = rw (← same) r.seq_range;
              rcv_range = rw (← same) r.seq_range;
              mult_range = r.mult_range;
              mult_pos = r.mult_pos;
            } in
            rw moved (
              repeated next store pkt again m p b key va lk
                (same_number_refused p next pkt b fits strict refl refl))
        | inr (x, e) ↦ absurd (not_ok (rw (e, verify_hash) at h))
      ]

module _ (crypto : Crypto) where
  accepts :
      (auth : Authenticator) (state : AuthState) (store : KeyStore) (pkt : ControlPacket)
      (buf : List ℕ) (n : ℕ)
      → IsDigest auth
      → (verify crypto auth state store pkt buf n).outcome ≡ ok tt
      → (a : AuthSection) × (pkt.auth ≡ some a)
        × (check_seq_window state pkt a (params_of auth) ≡ ok tt)
        × ((verify crypto auth state store pkt buf n).new_state
            ≡ record state { rcv_auth_seq = a.sequence_number; auth_seq_known = true })
  unfolding verify
  accepts simple_password_auth state store pkt buf n d h = absurd d
  accepts _ state store pkt buf n d h =
      verify_hash_accepts crypto state store pkt buf n (params_of _) h

  -- Once a sequence number is known, a packet that a digest authenticator accepts, with fields
  -- that fit their types and a positive detect multiplier, moves the receive number forward,
  -- with wrap-around, to the packet's own number, by at most three times the multiplier, and by
  -- at least one if the authenticator is meticulous. Afterwards the number is known.
  pub verify_advances :
      (auth : Authenticator) (state : AuthState) (store : KeyStore) (pkt : ControlPacket)
      (buf : List ℕ) (n : ℕ) (a : AuthSection)
      → IsDigest auth
      → InRange state pkt a
      → state.auth_seq_known ≡ true
      → (verify crypto auth state store pkt buf n).outcome ≡ ok tt
      → (k : ℕ) × (k ≤ 3 * pkt.detect_mult)
        × ((verify crypto auth state store pkt buf n).new_state.rcv_auth_seq
            ≡ (state.rcv_auth_seq + k) % 2 ^ 32)
        × ((verify crypto auth state store pkt buf n).new_state.rcv_auth_seq ≡ a.sequence_number)
        × ((verify crypto auth state store pkt buf n).new_state.auth_seq_known ≡ true)
        × (IsMeticulous auth → 1 ≤ k)
  verify_advances auth state store pkt buf n a d r known h =
      let (b, e, w, new) = accepts auth state store pkt buf n d h in
      let same : a ≡ b = cc (r.section, e) in
      let w' = subst (λ x. check_seq_window state pkt x (params_of auth) ≡ ok tt) (sym same) w in
      let (k, hi, eq, lo) = window_advance (params_of auth) state pkt a r known w' in
      let seq : (verify crypto auth state store pkt buf n).new_state.rcv_auth_seq
          ≡ a.sequence_number =
        ap (λ (s : AuthState). s.rcv_auth_seq) new
        ∙ ap (λ (x : AuthSection). x.sequence_number) (sym same) in
      (
        k,
        hi,
        seq ∙ eq,
        seq,
        ap (λ (s : AuthState). s.auth_seq_known) new,
        λ m. lo (meticulous_params auth m),
      )

  -- Once a meticulous authenticator has accepted a packet, with fields that fit their types and
  -- a positive detect multiplier, it refuses the same packet again, in whatever buffer it
  -- arrives, as outside the window.
  pub replay_refused :
      (auth : Authenticator) (state : AuthState) (store : KeyStore) (pkt : ControlPacket)
      (buf again : List ℕ) (n m : ℕ) (a : AuthSection)
      → IsMeticulous auth
      → InRange state pkt a
      → (verify crypto auth state store pkt buf n).outcome ≡ ok tt
      → (verify crypto auth
          (verify crypto auth state store pkt buf n).new_state
          store
          pkt
          again
          m).outcome
        ≡ err auth_seq_out_of_window
  unfolding verify
  replay_refused simple_password_auth state store pkt buf again n m a d r h = absurd d
  replay_refused _ state store pkt buf again n m a d r h =
      hash_replay crypto state store pkt buf again n m (params_of _) a (meticulous_params _ d) r h
