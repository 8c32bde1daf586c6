-- ===== src/Tests/Keys.antt =====
-- Authentication (internal/bfd/auth.go) on a concrete packet.
use gobfd.Common.{
  List, none, inl, inr, length, replicate, false, ℕ, ◌+◌, ◌*◌, ◌%◌, ◌^◌, ◌≤◌, ◌≡◌, refl, arith, [],
  true, ok, err,
}
use gobfd.Auth.{
  AuthState, meticulous_keyed_md5_auth, auth_seq_out_of_window, auth_key_not_found, lookup_key,
  params_of, compute_digest, KeyStore,
}
use gobfd.Auth.Verify.{
  verify, verify_hash, verify_hash_checks, validate_hash_auth, check_seq_window, validate_auth_wire,
  place_key, verify_and_update_seq,
}
use gobfd.Auth.Replay.{InRange, IsMeticulous, verify_advances, replay_refused}
use gobfd.Auth.Refusal.{verify_refused_unchanged}
use gobfd.Auth.Sign.{Signed, sign}
use gobfd.Auth.Interop.{InStep, signed_wire, verify-sign}
use gobfd.Packet.{ControlPacket}
use gobfd.Packet.Unmarshal.{unmarshal_control_packet}
use gobfd.Packet.RoundTrip.{IsValid}
use gobfd.Tests.{
  hello, short_crypto, signed_hello, signed_bytes, digest_section, one_key, key_nine, at_hundred,
}

hello-InRange : InRange at_hundred signed_hello digest_section
hello-InRange = record {
  section = refl;
  seq_range = omega arith;
  rcv_range = omega arith;
  mult_range = omega arith;
  mult_pos = omega arith;
}

hello_accepted :
    (verify short_crypto meticulous_keyed_md5_auth at_hundred one_key signed_hello signed_bytes
      48).outcome
    ≡ ok tt
unfolding verify verify_hash verify_hash_checks validate_hash_auth lookup_key check_seq_window
    validate_auth_wire place_key verify_and_update_seq compute_digest params_of
hello_accepted = refl

verify_advances_example :
    (k : ℕ) × (k ≤ 3 * 3)
    × ((verify short_crypto meticulous_keyed_md5_auth at_hundred one_key signed_hello signed_bytes
          48).new_state.rcv_auth_seq
        ≡ (100 + k) % 2 ^ 32)
    × ((verify short_crypto meticulous_keyed_md5_auth at_hundred one_key signed_hello signed_bytes
          48).new_state.rcv_auth_seq
        ≡ 101)
    × ((verify short_crypto meticulous_keyed_md5_auth at_hundred one_key signed_hello signed_bytes
          48).new_state.auth_seq_known
        ≡ true)
    × (IsMeticulous meticulous_keyed_md5_auth → 1 ≤ k)
verify_advances_example =
    verify_advances short_crypto meticulous_keyed_md5_auth at_hundred one_key signed_hello
      signed_bytes 48 digest_section tt hello-InRange refl hello_accepted

replay_refused_example :
    (verify short_crypto meticulous_keyed_md5_auth
      (verify short_crypto meticulous_keyed_md5_auth at_hundred one_key signed_hello signed_bytes
        48).new_state
      one_key
      signed_hello
      signed_bytes
      48).outcome
    ≡ err auth_seq_out_of_window
replay_refused_example =
    replay_refused short_crypto meticulous_keyed_md5_auth at_hundred one_key signed_hello
      signed_bytes signed_bytes 48 48 digest_section tt hello-InRange hello_accepted

abbrev no_keys : KeyStore
no_keys = record { keys = []; current_key = key_nine }

unknown_key :
    (verify short_crypto meticulous_keyed_md5_auth at_hundred no_keys signed_hello signed_bytes
      48).outcome
    ≡ err auth_key_not_found
unfolding verify verify_hash verify_hash_checks validate_hash_auth lookup_key params_of
unknown_key = refl

verify_refused_unchanged_example :
    (verify short_crypto meticulous_keyed_md5_auth at_hundred no_keys signed_hello signed_bytes
      48).new_state
    ≡ at_hundred
verify_refused_unchanged_example =
    verify_refused_unchanged short_crypto meticulous_keyed_md5_auth at_hundred no_keys signed_hello
      signed_bytes 48 unknown_key

hello-IsValid : IsValid hello
hello-IsValid = record {
  fits = record {
    version_fits = omega arith;
    diag_fits = omega arith;
    state_fits = omega arith;
    detect_mult_fits = omega arith;
    my_discriminator_fits = omega arith;
    your_discriminator_fits = omega arith;
    desired_fits = omega arith;
    required_fits = omega arith;
    echo_fits = omega arith;
  };
  version_one = refl;
  mult_set = omega arith;
  not_multipoint = refl;
  my_set = omega arith;
  your_set = inr (inl refl);
  auth_agrees = tt;
}

key_found : lookup_key one_key 9 ≡ ok key_nine
unfolding lookup_key
key_found = refl

abbrev hearing_nothing : AuthState
hearing_nothing = record at_hundred { rcv_auth_seq = 0; auth_seq_known = false }

abbrev hello_signed : Signed
hello_signed = sign short_crypto meticulous_keyed_md5_auth at_hundred one_key hello (replicate 64 0)

abbrev hello_wire : List ℕ
hello_wire = signed_wire (params_of meticulous_keyed_md5_auth) hello_signed

verify-sign_example :
    (hello_signed.error ≡ none)
    × (received : ControlPacket) × (unmarshal_control_packet hello_wire ≡ ok received)
    × ((verify short_crypto meticulous_keyed_md5_auth hearing_nothing one_key received hello_wire
          (length hello_wire)).outcome
        ≡ ok tt)
    × InStep hello_signed.new_state
        (verify short_crypto meticulous_keyed_md5_auth hearing_nothing one_key received hello_wire
          (length hello_wire)).new_state
unfolding params_of
verify-sign_example =
    verify-sign short_crypto meticulous_keyed_md5_auth at_hundred hearing_nothing one_key one_key
      hello (replicate 64 0) tt hello-IsValid (omega arith) (omega arith) key_found (omega arith)
      (inl refl)
