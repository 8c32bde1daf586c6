-- ===== src/Auth/Interop.antt =====
-- A packet signed by a digest authenticator of internal/bfd/auth.go, on the wire and at a receiver
-- that holds the same key.
use gobfd.Common.{
  ℕ, ◌+◌, ◌%◌, ◌^◌, ◌<◌, ◌≤◌, ◌≡◌, ◌≢◌, ◌⊎◌, refl, sym, ap, ◌∙◌, List, ◌++◌, none, false, arith,
  inr, length, take, ok,
}
use gobfd.Packet.{AuthSection, ControlPacket}
use gobfd.Packet.Marshal.{marshal_control_packet}
use gobfd.Packet.Unmarshal.{unmarshal_control_packet}
use gobfd.Packet.RoundTrip.{IsValid}
use gobfd.Auth.{
  KeyStore, lookup_key, Authenticator, simple_password_auth, AuthState, HashParams, params_of,
  Crypto, seq_in_window,
}
use gobfd.Auth.Sign.{Signed, build_auth_section, sign_hash, sign}
use gobfd.Auth.Verify.{check_seq_window, verify_hash, verify}
use gobfd.Auth.Replay.{IsDigest}
use gobfd.Auth.Accepted.{IsHash, params-IsHash}
use gobfd.Auth.Carrier.{
  section, carrier, front, received, sent_digest, wire_written, wire_accepted, signed,
}

sign_digest :
    (crypto : Crypto) (auth : Authenticator) (tx : AuthState) (store : KeyStore)
    (pkt : ControlPacket) (buf : List ℕ)
    → IsDigest auth
    → sign crypto auth tx store pkt buf ≡ sign_hash crypto tx store pkt buf (params_of auth)
unfolding sign
sign_digest crypto simple_password_auth tx store pkt buf d = absurd d
sign_digest crypto auth tx store pkt buf d = refl

verify_digest :
    (crypto : Crypto) (auth : Authenticator) (rx : AuthState) (store : KeyStore)
    (pkt : ControlPacket) (buf : List ℕ) (n : ℕ)
    → IsDigest auth
    → verify crypto auth rx store pkt buf n ≡ verify_hash crypto rx store pkt buf n (params_of auth)
unfolding verify
verify_digest crypto simple_password_auth rx store pkt buf n d = absurd d
verify_digest crypto auth rx store pkt buf n d = refl

-- The receiver knows no number yet, or the last one that the sender used.
abbrev pub InStep : AuthState → AuthState → Type 0
InStep tx rx = (rx.auth_seq_known ≡ false) ⊎ (rx.rcv_auth_seq ≡ tx.xmit_auth_seq)

in_window :
    (tx rx : AuthState) (pkt : ControlPacket) (a : AuthSection) (p : HashParams)
    → InStep tx rx
    → tx.xmit_auth_seq < 2 ^ 32
    → a.sequence_number ≡ (tx.xmit_auth_seq + 1) % 2 ^ 32
    → pkt.detect_mult ≢ 0
    → pkt.detect_mult < 256
    → check_seq_window rx pkt a p ≡ ok tt
unfolding check_seq_window seq_in_window
in_window tx rx pkt a p step fits e m small = ground (arith, step, e)

-- What the sender puts on the wire: the packet that Sign leaves, written over the buffer that it
-- leaves, up to the packet's size.
abbrev pub signed_wire : HashParams → Signed → List ℕ
signed_wire p s = take (24 + p.auth_len) (marshal_control_packet s.signed_packet s.buffer).0

module _ (crypto : Crypto) (p : HashParams) (h : IsHash p) where
  hash_verifies :
      (tx rx : AuthState) (store rx_store : KeyStore) (pkt : ControlPacket) (buf : List ℕ)
      → IsValid pkt
      → 24 + p.auth_len ≤ length buf
      → length store.current_key.secret ≤ p.digest_size
      → lookup_key rx_store store.current_key.id ≡ ok store.current_key
      → tx.xmit_auth_seq < 2 ^ 32
      → InStep tx rx
      → let s = sign_hash crypto tx store pkt buf p in
        let wire = signed_wire p s in
        (s.error ≡ none)
        × (received : ControlPacket) × (unmarshal_control_packet wire ≡ ok received)
        × ((verify_hash crypto rx rx_store received wire (length wire) p).outcome ≡ ok tt)
        × InStep s.new_state
            (verify_hash crypto rx rx_store received wire (length wire) p).new_state
  unfolding sign_hash build_auth_section
  hash_verifies tx rx store rx_store pkt buf v room fits known seq step =
      let key = store.current_key in
      let next = record tx { xmit_auth_seq = (tx.xmit_auth_seq + 1) % 2 ^ 32 } in
      let low : next.xmit_auth_seq < 2 ^ 32 = omega arith in
      let s = sign_hash crypto tx store pkt buf p in
      let (no_error, new_, packet_, kept) = signed crypto p h next key pkt v low buf room in
      let digest = sent_digest crypto p h next key pkt v low in
      let d : length digest ≡ p.digest_size = h.digest_length crypto _ in
      let bytes = front crypto p h next key pkt v low ++ digest in
      let n : length bytes ≡ 24 + p.auth_len = omega (arith, d, h.size) in
      let wire : signed_wire p s ≡ bytes =
        ap (λ x. take (24 + p.auth_len) (marshal_control_packet x s.buffer).0) packet_
        ∙ wire_written crypto p h next key pkt v low s.buffer (omega (arith, kept, room)) in
      let got : ControlPacket = record (carrier crypto p h next key pkt v low digest) {
        length_field = 24 + p.auth_len;
      } in
      let window =
        in_window tx rx got (section crypto p h next key pkt v low digest) p step seq refl
          v.mult_set v.fits.detect_mult_fits in
      let accepted = wire_accepted crypto p h next key pkt v low rx rx_store fits known window in
      let same =
        ap (λ b. verify_hash crypto rx rx_store got b (length b) p) wire
        ∙ ap (λ m. verify_hash crypto rx rx_store got bytes m p) n in
      (
        no_error,
        got,
        ap unmarshal_control_packet wire ∙ received crypto p h next key pkt v low digest d,
        ap (λ r. r.outcome) same ∙ accepted.0,
        inr (
            ap (λ r. r.new_state.rcv_auth_seq) same
            ∙ ap (λ x. x.rcv_auth_seq) accepted.1
            ∙ sym (ap (λ x. x.xmit_auth_seq) new_)),
      )

-- Two ends with the same key understand each other: a valid packet that any of the four digest
-- authenticators signs, in a buffer with room and with a key no longer than the digest, is
-- signed without an error, and its wire form decodes and is accepted by a receiver that finds
-- the sender's current key and either knows no sequence number yet or the last one that the
-- sender used. After it the receiver again knows no number or the last one that the sender used,
-- so the next packet finds it in step.
pub verify-sign :
    (crypto : Crypto) (auth : Authenticator) (tx rx : AuthState) (store rx_store : KeyStore)
    (pkt : ControlPacket) (buf : List ℕ)
    → IsDigest auth
    → IsValid pkt
    → 24 + (params_of auth).auth_len ≤ length buf
    → length store.current_key.secret ≤ (params_of auth).digest_size
    → lookup_key rx_store store.current_key.id ≡ ok store.current_key
    → tx.xmit_auth_seq < 2 ^ 32
    → InStep tx rx
    → let s = sign crypto auth tx store pkt buf in
      let wire = signed_wire (params_of auth) s in
      (s.error ≡ none)
      × (received : ControlPacket) × (unmarshal_control_packet wire ≡ ok received)
      × ((verify crypto auth rx rx_store received wire (length wire)).outcome ≡ ok tt)
      × InStep s.new_state (verify crypto auth rx rx_store received wire (length wire)).new_state
verify-sign crypto auth tx rx store rx_store pkt buf d v room fits known seq step =
    let p = params_of auth in
    let same = sign_digest crypto auth tx store pkt buf d in
    let (e, got, u, o, i) =
      hash_verifies crypto p (params-IsHash auth d) tx rx store rx_store pkt buf v room fits known
        seq step in
    let wire = signed_wire p (sign_hash crypto tx store pkt buf p) in
    let checked = verify_digest crypto auth rx rx_store got wire (length wire) d in
    rw same (e, got, u, rw checked o, rw checked i)
