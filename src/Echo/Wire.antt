-- ===== src/Echo/Wire.antt =====
-- The bytes that sendEcho of internal/bfd/echo.go hands to the sender.
use gobfd.Common.{
  ℕ, ◌^◌, ◌<◌, ◌≤◌, ◌≡◌, ◌≢◌, ◌⊎◌, refl, sym, ap, ◌∙◌, List, [], ◌∷◌, ◌++◌, arith, length, take,
  get_or, ok, take-append,
}
use mathlib.Core.Path.{subst}
use mathlib.Core.List.{append-nil}
use gobfd.Packet.{down, up}
use gobfd.Packet.Marshal.{marshal_control_packet}
use gobfd.Packet.Unmarshal.{unmarshal_control_packet}
use gobfd.Packet.Header.{header_bytes}
use gobfd.Packet.RoundTrip.{IsValid, bytes_read, bytes_written}
use gobfd.Packet.Sizes.{length-marshal}
use gobfd.Duration.{microseconds_from_duration}
use gobfd.Session.{Env}
use gobfd.Session.Sound.{AllDecode}
use gobfd.Echo.{
  EchoSession, returned, detect_fired, tx_fired, Event, input, recv, step, on, handle_echo_recv,
  handle_detect_timeout, transition_to, emit_notification, send_echo, rebuild_cached_packet,
  recv_echo, echo_packet,
}

-- A session that can send, and all of whose buffers decode to packets of its own.
pub record IsSound (es : EchoSession) : Type 0 where
  pub mult_set : es.detect_mult ≢ 0
  pub mult_fits : es.detect_mult < 256
  pub local_set : es.local_discr ≢ 0
  pub local_fits : es.local_discr < 2 ^ 32
  pub diag_fits : es.local_diag < 32
  pub two_states : (es.state ≡ down) ⊎ (es.state ≡ up)
  pub room : 64 ≤ length es.cached_packet
  pub all_sent : AllDecode es.local_discr es.sent

echo_packet-IsValid : (es : EchoSession) → IsSound es → IsValid (echo_packet es)
unfolding echo_packet microseconds_from_duration
echo_packet-IsValid es i = record {
  fits = record {
    version_fits = omega arith;
    diag_fits = i.diag_fits;
    state_fits = ground (arith, i.two_states);
    detect_mult_fits = i.mult_fits;
    my_discriminator_fits = i.local_fits;
    your_discriminator_fits = ground (arith, i.local_fits);
    desired_fits = omega arith;
    required_fits = omega arith;
    echo_fits = omega arith;
  };
  version_one = refl;
  mult_set = i.mult_set;
  not_multipoint = refl;
  my_set = i.local_set;
  your_set = ground (arith, i.two_states, i.local_set);
  auth_agrees = tt;
}

-- The buffer that a transmission hands over.
abbrev pub echo_bytes : EchoSession → List ℕ
echo_bytes es = header_bytes (echo_packet es) 24

marshalled :
    (es : EchoSession)
    → IsSound es
    → (rest : List ℕ) × ((marshal_control_packet (echo_packet es) es.cached_packet).0
        ≡ echo_bytes es ++ rest)
unfolding echo_packet
marshalled es i =
    let (rest, h) =
      bytes_written (echo_packet es) (echo_packet-IsValid es i) es.cached_packet
        (omega (arith, i.room)) in
    (rest, ap (λ r. r.0) h)

handed :
    (env : Env) (es : EchoSession) → IsSound es → (send_echo env es).sent ≡ echo_bytes es ∷ es.sent
unfolding send_echo rebuild_cached_packet
handed env es i =
    let (rest, e) = marshalled es i in
    ground (arith, ap (λ l. take (get_or l 3 0) l) e, take-append 24 (echo_bytes es) rest refl)

echo_named : (es : EchoSession) → (echo_packet es).my_discriminator ≡ es.local_discr
unfolding echo_packet
echo_named es = refl

-- A transmission of a sound echo session hands one buffer of 24 bytes to the sender; it decodes to
-- the packet that the session describes.
pub send_echo_decodes :
    (env : Env) (es : EchoSession)
    → IsSound es
    → ((send_echo env es).sent ≡ echo_bytes es ∷ es.sent)
      × (unmarshal_control_packet (echo_bytes es)
          ≡ ok (record (echo_packet es) { length_field = 24 }))
unfolding echo_packet
send_echo_decodes env es i = (
  handed env es i,
  ap unmarshal_control_packet (sym (append-nil _))
      ∙ bytes_read (echo_packet es) (echo_packet-IsValid es i) [],
)

-- What a step leaves alone.
record Keeps (es t : EchoSession) : Type 0 where
  mult_kept : t.detect_mult ≡ es.detect_mult
  discr_kept : t.local_discr ≡ es.local_discr
  buffer_kept : length t.cached_packet ≡ length es.cached_packet

send_echo-Keeps :
    (env : Env) (es : EchoSession)
    → Keeps es (send_echo env es)
      × ((send_echo env es).state ≡ es.state)
      × ((send_echo env es).local_diag ≡ es.local_diag)
unfolding send_echo rebuild_cached_packet
send_echo-Keeps env es = ground (arith, length-marshal (echo_packet es) es.cached_packet)

send_echo-IsSound : (env : Env) (es : EchoSession) → IsSound es → IsSound (send_echo env es)
send_echo-IsSound env es i =
    let (sent_one, decodes) = send_echo_decodes env es i in
    let (k, same, diag) = send_echo-Keeps env es in
    let mine : AllDecode es.local_discr (send_echo env es).sent =
      subst (AllDecode es.local_discr) (sym sent_one) ((_, decodes, echo_named es), i.all_sent) in
    record {
      mult_set = ground (arith, k, i.mult_set);
      mult_fits = ground (arith, k, i.mult_fits);
      local_set = ground (arith, k, i.local_set);
      local_fits = ground (arith, k, i.local_fits);
      diag_fits = ground (arith, diag, i.diag_fits);
      two_states = ground (arith, same, i.two_states);
      room = ground (arith, k, i.room);
      all_sent = subst (λ d. AllDecode d (send_echo env es).sent) (sym k.discr_kept) mine;
    }

-- No other event sends, and none changes what a transmission needs.
quiet-IsSound :
    (es t : EchoSession)
    → Keeps es t
    → t.sent ≡ es.sent
    → t.local_diag < 32
    → (t.state ≡ down) ⊎ (t.state ≡ up)
    → IsSound es
    → IsSound t
quiet-IsSound es t k sent diag two i = record {
  mult_set = ground (arith, k, i.mult_set);
  mult_fits = ground (arith, k, i.mult_fits);
  local_set = ground (arith, k, i.local_set);
  local_fits = ground (arith, k, i.local_fits);
  diag_fits = diag;
  two_states = two;
  room = ground (arith, k, i.room);
  all_sent =
      subst (λ l. AllDecode t.local_discr l) (sym sent)
        (subst (λ d. AllDecode d es.sent) (sym k.discr_kept) i.all_sent);
}

pub on-IsSound : (e : Event) (es : EchoSession) → IsSound es → IsSound (on e es)
unfolding on step recv_echo handle_echo_recv handle_detect_timeout transition_to emit_notification
on-IsSound recv es i =
    quiet-IsSound es _ (ground arith) (ground arith) (ground (arith, i.diag_fits))
      (ground (arith, i.two_states)) i
on-IsSound (input env returned) es i =
    quiet-IsSound es _ (ground arith) (ground arith) (ground (arith, i.diag_fits))
      (ground (arith, i.two_states)) i
on-IsSound (input env detect_fired) es i =
    quiet-IsSound es _ (ground arith) (ground arith) (ground (arith, i.diag_fits))
      (ground (arith, i.two_states)) i
on-IsSound (input env (tx_fired seed)) es i =
    let j = send_echo-IsSound env es i in
    quiet-IsSound (send_echo env es) _ (ground arith) (ground arith) (ground (arith, j.diag_fits))
      (ground (arith, j.two_states)) j
