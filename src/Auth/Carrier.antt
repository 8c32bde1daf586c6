-- ===== src/Auth/Carrier.antt =====
-- A packet signed by signHash of internal/bfd/auth.go, in bytes, and verifyHash on these bytes.
use gobfd.Common.{
  ℕ, ◌+◌, ◌^◌, ◌<◌, ◌≤◌, ◌≡◌, refl, sym, ap, ◌∙◌, List, [], ◌∷◌, ◌++◌, none, some, true, arith,
  length, take, uint32_bytes, length-write_at, take-append, ok,
}
use mathlib.Core.Path.{subst}
use mathlib.Core.List.{append-nil, append_assoc}
use gobfd.Packet.{auth_type_code, AuthSection, ControlPacket}
use gobfd.Packet.Marshal.{marshal_control_packet}
use gobfd.Packet.Unmarshal.{unmarshal_control_packet}
use gobfd.Packet.Header.{header_bytes}
use gobfd.Packet.AuthBytes.{hash_bytes}
use gobfd.Packet.RoundTrip.{IsValid, bytes_read, bytes_written}
use gobfd.Packet.Sizes.{length-marshal}
use gobfd.Auth.{
  AuthKey, KeyStore, lookup_key, AuthState, HashParams, Crypto, compute_digest, padded_key,
}
use gobfd.Auth.Sign.{finish_sign}
use gobfd.Auth.Verify.{
  Verified, check_seq_window, verify_hash_checks, verify_and_update_seq, verify_hash,
}
use gobfd.Auth.Accepted.{IsHash, finish_signed, digest_accepted, checks_passed, length-padded_key}

pub checks_then_digest :
    (crypto : Crypto) (rx : AuthState) (store : KeyStore) (pkt : ControlPacket) (bytes : List ℕ)
    (n : ℕ) (p : HashParams) (a : AuthSection) (key : AuthKey)
    → verify_hash_checks rx store pkt bytes n p ≡ ok (a, key)
    → verify_hash crypto rx store pkt bytes n p ≡ verify_and_update_seq crypto rx a key bytes n p
unfolding verify_hash
checks_then_digest crypto rx store pkt bytes n p a key e = rw (e, verify_hash)

module _ (crypto : Crypto) (p : HashParams) (h : IsHash p) (state : AuthState) (key : AuthKey)
    (pkt : ControlPacket) (v : IsValid pkt) (seq_fits : state.xmit_auth_seq < 2 ^ 32) where
  -- The section with a digest in it, and the packet that carries it.
  abbrev pub section : List ℕ → AuthSection
  section digest = record {
    auth_type = p.auth_type;
    len = p.auth_len;
    key_id = key.id;
    auth_data = [];
    sequence_number = state.xmit_auth_seq;
    digest = digest;
  }

  abbrev pub carrier : List ℕ → ControlPacket
  carrier digest = record pkt { auth = some (section digest); auth_present = true }

  abbrev pub size : ℕ
  size = 24 + p.auth_len

  -- The first 32 bytes of the wire: the header, and the section up to the digest.
  abbrev pub front : List ℕ
  front =
      header_bytes (record pkt { auth = none; auth_present = true }) size
      ++ (auth_type_code p.auth_type ∷ p.auth_len ∷ key.id ∷ 0 ∷ uint32_bytes state.xmit_auth_seq)

  pub carrier-IsValid : (digest : List ℕ) → length digest ≡ p.digest_size → IsValid (carrier digest)
  carrier-IsValid digest d = record {
    fits = ground (arith, v.fits);
    version_one = v.version_one;
    mult_set = v.mult_set;
    not_multipoint = v.not_multipoint;
    my_set = v.my_set;
    your_set = v.your_set;
    auth_agrees = h.shape (section digest) refl d seq_fits refl;
  }

  pub written :
      (digest buf : List ℕ)
      → length digest ≡ p.digest_size
      → size ≤ length buf
      → (rest : List ℕ) × (marshal_control_packet (carrier digest) buf
          ≡ (front ++ (digest ++ rest), ok size))
  written digest buf d room =
      let (rest, e) = bytes_written (carrier digest) (carrier-IsValid digest d) buf room in
      (
        rest,
        e
            ∙ ap (λ (l : List ℕ). (header_bytes (carrier digest) size ++ (l ++ rest), ok size))
                (h.layout (section digest)),
      )

  pub received :
      (digest : List ℕ)
      → length digest ≡ p.digest_size
      → unmarshal_control_packet (front ++ digest)
        ≡ ok (record (carrier digest) { length_field = size })
  received digest d =
      ap unmarshal_control_packet (
        ap (λ (l : List ℕ). header_bytes (carrier digest) size ++ l)
          (sym (append-nil (hash_bytes p.auth_type (section digest)))
            ∙ ap (λ (l : List ℕ). l ++ []) (sym (h.layout (section digest)))))
      ∙ bytes_read (carrier digest) (carrier-IsValid digest d) []

  pub length-front : length front ≡ 32
  length-front = refl

  abbrev pub key_bytes : List ℕ
  key_bytes = padded_key p.digest_size key.secret

  abbrev pub sent_digest : List ℕ
  sent_digest = compute_digest crypto (front ++ key_bytes) p

  pub size-is : size ≡ 32 + p.digest_size
  size-is = omega (arith, h.size)

  pub wire_written :
      (buf : List ℕ)
      → size ≤ length buf
      → take size (marshal_control_packet (carrier sent_digest) buf).0 ≡ front ++ sent_digest
  wire_written buf room =
      let d : length sent_digest ≡ p.digest_size = h.digest_length crypto (front ++ key_bytes) in
      let (rest, e) = written sent_digest buf d room in
      ap (λ r. take size r.0) e
      ∙ ap (take size) (sym (append_assoc front sent_digest rest))
      ∙ take-append size (front ++ sent_digest) rest (omega (arith, d, size-is))

  -- The packet is accepted and its number is the last one received.
  abbrev pub Accepts : AuthState → Verified → Type 0
  Accepts rx r =
      (r.outcome ≡ ok tt)
      × (r.new_state ≡ record rx { rcv_auth_seq = state.xmit_auth_seq; auth_seq_known = true })

  pub wire_accepted :
      (rx : AuthState) (store : KeyStore)
      → length key.secret ≤ p.digest_size
      → lookup_key store key.id ≡ ok key
      → check_seq_window rx
          (record (carrier sent_digest) { length_field = size })
          (section sent_digest)
          p
        ≡ ok tt
      → let r =
          verify_hash crypto rx store
            (record (carrier sent_digest) { length_field = size })
            (front ++ sent_digest)
            size
            p in
        Accepts rx r
  wire_accepted rx store fits known window =
      let d : length sent_digest ≡ p.digest_size = h.digest_length crypto (front ++ key_bytes) in
      let checks =
        checks_passed rx store (record (carrier sent_digest) { length_field = size })
          (front ++ sent_digest) size p (section sent_digest) key refl refl refl known window
          (omega (arith, size-is)) (omega (arith, d, size-is)) in
      let good =
        digest_accepted crypto p h front length-front rx (section sent_digest) key fits refl in
      subst (Accepts rx)
        (sym (
          checks_then_digest crypto rx store (record (carrier sent_digest) { length_field = size })
            (front ++ sent_digest) size p (section sent_digest) key checks
          ∙ ap
              (λ n.
                verify_and_update_seq crypto rx (section sent_digest) key (front ++ sent_digest) n
                  p)
              size-is))
        good

  -- The end of signHash on the packet that it has written.
  pub signed :
      (buf : List ℕ)
      → size ≤ length buf
      → let w = marshal_control_packet (carrier key_bytes) buf in
        let r = finish_sign crypto state (carrier key_bytes) (section key_bytes) p w.0 w.1 in
        (r.error ≡ none)
        × (r.new_state ≡ state)
        × (r.signed_packet ≡ carrier sent_digest)
        × (length r.buffer ≡ length buf)
  signed buf room =
      let k = length-padded_key p.digest_size key.secret in
      let (rest, e) = written key_bytes buf k room in
      let same : finish_sign crypto state (carrier key_bytes) (section key_bytes) p
            (marshal_control_packet (carrier key_bytes) buf).0
            (marshal_control_packet (carrier key_bytes) buf).1
          ≡ finish_sign crypto state (carrier key_bytes) (section key_bytes) p
              (front ++ (key_bytes ++ rest)) (ok (32 + p.digest_size)) =
        ap (λ w. finish_sign crypto state (carrier key_bytes) (section key_bytes) p w.0 w.1) e
        ∙ ap
            (λ n.
              finish_sign crypto state (carrier key_bytes) (section key_bytes) p
                (front ++ (key_bytes ++ rest)) (ok n))
            size-is in
      let all =
        same
        ∙ finish_signed crypto p h front length-front state (carrier key_bytes) (section key_bytes)
            key_bytes rest k in
      (
        ap (λ r. r.error) all,
        ap (λ r. r.new_state) all,
        ap (λ r. r.signed_packet) all,
        ap (λ r. length r.buffer) all
            ∙ length-write_at 32 sent_digest (front ++ (key_bytes ++ rest))
            ∙ ap (λ w. length w.0) (sym e)
            ∙ length-marshal (carrier key_bytes) buf,
      )
