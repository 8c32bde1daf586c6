-- ===== src/Session/Wire.antt =====
-- The bytes that sendControl (internal/bfd/session_loop.go) hands to the sender, for a session
-- without authentication.
use gobfd.Common.{
  ℕ, ◌+◌, ◌-◌, ◌^◌, ◌<◌, ◌≤◌, ◌≡◌, ◌≢◌, ◌⊎◌, refl, sym, ap, ◌∙◌, List, [], ◌∷◌, ◌++◌, Option, none,
  some, true, false, arith, inl, inr, Bool-cases, length, drop, take, get_or, replicate, write_at,
  ok, ltb, length-append, take-append, length-replicate, write_at-append, write_at_front, max, ◌&&◌,
}
use gobfd.Packet.{State, admin_down, down, reserved, state_code, ControlPacket}
use gobfd.Packet.Marshal.{sent_auth, marshal_control_packet}
use gobfd.Packet.Unmarshal.{unmarshal_control_packet}
use gobfd.Packet.Header.{header_bytes}
use mathlib.Core.List.{append_assoc, append-nil}
use gobfd.Packet.RoundTrip.{sent_bytes, IsValid, packet_size, bytes_read, bytes_written}
use gobfd.Packet.Sizes.{length-marshal}
use gobfd.Duration.{microseconds_from_duration}
use gobfd.Fsm.Rules.{IsState}
use gobfd.Session.{Session, Security, Env}
use gobfd.Session.Announced.{Announces, control_packet-Announces}
use gobfd.Session.Transmit.{
  control_packet, build_control_packet, cache_packet, rebuild_cached_packet, pad_cached_packet,
  hand_over, send_control,
}

-- The fields that a transmission reads are in the ranges that the protocol gives them.
pub record CanSend (s : Session) : Type 0 where
  pub plain : s.security ≡ none
  pub mult_set : s.detect_mult ≢ 0
  pub mult_fits : s.detect_mult < 256
  pub local_set : s.local_discr ≢ 0
  pub local_fits : s.local_discr < 2 ^ 32
  pub remote_fits : s.remote_discr < 2 ^ 32
  pub diag_fits : s.local_diag < 32
  pub named : IsState s.cached_state
  pub peer_known : (s.remote_discr ≢ 0) ⊎ ((s.cached_state ≡ down) ⊎ (s.cached_state ≡ admin_down))
  pub room : 64 ≤ length s.cached_packet
  pub padded_room : s.padded_pdu_size ≤ length s.cached_packet

named_code : (st : State) → IsState st → state_code st < 4
named_code (reserved n) k = absurd k
named_code admin_down k = omega arith
named_code _ k = omega arith

control_packet-IsValid : (s : Session) → CanSend s → IsValid (control_packet s)
unfolding control_packet microseconds_from_duration
control_packet-IsValid s c = record {
  fits = record {
    version_fits = omega arith;
    diag_fits = c.diag_fits;
    state_fits = named_code s.cached_state c.named;
    detect_mult_fits = c.mult_fits;
    my_discriminator_fits = c.local_fits;
    your_discriminator_fits = c.remote_fits;
    desired_fits = omega arith;
    required_fits = omega arith;
    echo_fits = omega arith;
  };
  version_one = refl;
  mult_set = c.mult_set;
  not_multipoint = refl;
  my_set = c.local_set;
  your_set = c.peer_known;
  auth_agrees = tt;
}

no_section :
    (s : Session)
    → (packet_size (control_packet s) ≡ 24) × (sent_bytes (sent_auth (control_packet s)) ≡ [])
unfolding control_packet
no_section s = (refl, refl)

marshalled :
    (s : Session)
    → CanSend s
    → (rest : List ℕ) × ((marshal_control_packet (control_packet s) s.cached_packet).0
        ≡ header_bytes (control_packet s) 24 ++ rest)
      × (24 + length rest ≡ length s.cached_packet)
marshalled s c =
    let pkt = control_packet s in
    let (size, none_) = no_section s in
    let room : packet_size pkt ≤ length s.cached_packet = omega (arith, size, c.room) in
    let (rest, h) = bytes_written pkt (control_packet-IsValid s c) s.cached_packet room in
    let e : (marshal_control_packet pkt s.cached_packet).0 ≡ header_bytes pkt 24 ++ rest =
      ap (λ r. r.0) h
      ∙ ap (λ n. header_bytes pkt n ++ (sent_bytes (sent_auth pkt) ++ rest)) size
      ∙ ap (λ (l : List ℕ). header_bytes pkt 24 ++ (l ++ rest)) none_ in
    (rest, e, omega (arith, ap (λ l. length l) e, length-marshal pkt s.cached_packet))

-- The cached packet behind its header is cleared up to the padded size, and cut there.
padded :
    (pre rest : List ℕ) (n : ℕ)
    → length pre ≡ 24
    → n ≤ length rest
    → take (24 + n) (write_at 24 (replicate n 0) (pre ++ rest)) ≡ pre ++ replicate n 0
padded pre rest n e h =
    let zeros = replicate n 0 in
    let fit : length zeros ≤ length rest = omega (arith, length-replicate {A = ℕ} n 0) in
    let w : write_at 24 zeros (pre ++ rest) ≡ pre ++ (zeros ++ drop (length zeros) rest) =
      write_at-append pre zeros rest 24 e ∙ ap (λ l. pre ++ l) (write_at_front zeros rest fit) in
    ap (take (24 + n)) w
    ∙ ap (take (24 + n)) (sym (append_assoc pre zeros _))
    ∙ take-append (24 + n) (pre ++ zeros) _
        (omega (arith, length-append pre zeros, length-replicate {A = ℕ} n 0))

pad_bytes :
    (s : Session) (pre rest : List ℕ)
    → length pre ≡ 24
    → get_or s.cached_packet 3 0 ≡ 24
    → s.cached_packet ≡ pre ++ rest
    → s.padded_pdu_size ≤ 24 + length rest
    → (pad_cached_packet s).1 ≡ pre ++ replicate (s.padded_pdu_size - 24) 0
unfolding pad_cached_packet
pad_bytes s pre rest l g e h = elim (Bool-cases (ltb 24 s.padded_pdu_size)) [
  | inl big ↦
      let some_ : ltb 0 s.padded_pdu_size ≡ true = ground arith in
      let n : 24 + (s.padded_pdu_size - 24) ≡ s.padded_pdu_size = ground arith in
      rw (g, some_, big)
        (ap (λ x. take s.padded_pdu_size (write_at 24 (replicate (s.padded_pdu_size - 24) 0) x)) e
          ∙ ap (λ k. take k (write_at 24 (replicate (s.padded_pdu_size - 24) 0) (pre ++ rest)))
              (sym n)
          ∙ padded pre rest (s.padded_pdu_size - 24) l (omega arith))
  | inr small ↦
      let none_ : s.padded_pdu_size - 24 ≡ 0 = ground arith in
      let and_ : (ltb 0 s.padded_pdu_size && ltb 24 s.padded_pdu_size) ≡ false = ground arith in
      rw (g, and_, none_) (ap (take 24) e ∙ take-append 24 pre rest l ∙ sym (append-nil pre))
]

rebuilt :
    (env : Env) (o : Option Security) (pkt : ControlPacket) (s : Session)
    → o ≡ none
    → cache_packet env o pkt s
      ≡ record s { cached_packet = (marshal_control_packet pkt s.cached_packet).0 }
unfolding cache_packet
rebuilt env none pkt s e = refl
rebuilt env (some x) pkt s e = absurd (cc)

handed :
    (env : Env) (s : Session)
    → (hand_over env (pad_cached_packet s).1 (pad_cached_packet s).0).sent
      ≡ (pad_cached_packet s).1 ∷ s.sent
unfolding hand_over pad_cached_packet
handed env s = ground arith

pub rebuilt_session :
    (env : Env) (s : Session)
    → s.security ≡ none
    → rebuild_cached_packet env s ≡ record s {
      pending_final = false;
      cached_packet = (marshal_control_packet (control_packet s) s.cached_packet).0;
    }
unfolding rebuild_cached_packet build_control_packet
rebuilt_session env s e =
    rebuilt env s.security (control_packet s) (record s { pending_final = false }) e

abbrev padding : Session → List ℕ
padding s = replicate (s.padded_pdu_size - 24) 0

sent_bytes_of :
    (env : Env) (s : Session)
    → CanSend s
    → (send_control env s).sent ≡ (header_bytes (control_packet s) 24 ++ padding s) ∷ s.sent
unfolding send_control
sent_bytes_of env s c =
    let (rest, e, n) = marshalled s c in
    let third : get_or (marshal_control_packet (control_packet s) s.cached_packet).0 3 0 ≡ 24 =
      ap (λ l. get_or l 3 0) e in
    let s1 = record s {
      pending_final = false;
      cached_packet = (marshal_control_packet (control_packet s) s.cached_packet).0;
    } in
    handed env (rebuild_cached_packet env s)
    ∙ ap (λ x. (pad_cached_packet x).1 ∷ x.sent) (rebuilt_session env s c.plain)
    ∙ ap (λ l. l ∷ s.sent)
        (pad_bytes s1 (header_bytes (control_packet s) 24) rest refl third e
          (omega (arith, n, c.padded_room)))

-- A session without authentication whose fields are in range, padded or not, hands exactly one
-- buffer to the sender. The buffer decodes to the packet that the session describes, with the
-- Length field 24: it announces the session's version, diagnostic, state, bits, multiplier,
-- discriminators and intervals in microseconds, and outside Up a Desired Min TX Interval of a second
-- at least, as RFC 5880 sections 6.8.3 and 6.8.7 ask. The buffer is as long as the configured padded size, or 24 if that is larger; and what
-- lies behind the packet is zero.
pub send_control_decodes :
    (env : Env) (s : Session)
    → CanSend s
    → (bytes : List ℕ) × ((send_control env s).sent ≡ bytes ∷ s.sent)
      × (unmarshal_control_packet bytes ≡ ok (record (control_packet s) { length_field = 24 }))
      × (length bytes ≡ max 24 s.padded_pdu_size)
      × (drop 24 bytes ≡ replicate (s.padded_pdu_size - 24) 0)
      × Announces s (record (control_packet s) { length_field = 24 })
send_control_decodes env s c =
    let pkt = control_packet s in
    let (size, none_) = no_section s in
    let n : length (padding s) ≡ s.padded_pdu_size - 24 =
      length-replicate {A = ℕ} (s.padded_pdu_size - 24) 0 in
    (
      header_bytes pkt 24 ++ padding s,
      sent_bytes_of env s c,
      ap unmarshal_control_packet (
            ap (λ k. header_bytes pkt k ++ padding s) (sym size)
            ∙ ap (λ (l : List ℕ). header_bytes pkt (packet_size pkt) ++ (l ++ padding s))
                (sym none_))
          ∙ bytes_read pkt (control_packet-IsValid s c) (padding s)
          ∙ ap (λ k. ok (record pkt { length_field = k })) size,
      omega (arith, n),
      refl,
      control_packet-Announces s 24,
    )
