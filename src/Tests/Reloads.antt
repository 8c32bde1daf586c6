-- ===== src/Tests/Reloads.antt =====
-- ReconcileSessions (internal/bfd/manager_session.go) on concrete values.
use gobfd.Common.{
  ℕ, ◌+◌, ◌*◌, ◌-◌, ◌<◌, ◌≡◌, refl, ap, arith, List, [], ◌∷◌, some, true, Bool-cases, inl, inr, ltb,
}
use native.Mathlib.Nat.{mul-add, add-mul}
use gobfd.Assoc.{nat_key, lookup, is_some}
use gobfd.Netip.{Addr}
use gobfd.Session.{SessionConfig}
use gobfd.Manager.{SessionKey, session_key, key_of}
use gobfd.Manager.Reconcile.{ReconcileConfig, desired_keys, reconcile_sessions}
use gobfd.Manager.Settled.{reconcile_settles}
use gobfd.Manager.Reconcile.{session_key_set, create_missing, destroy_unwanted, key_set, reconcile}
use gobfd.Assoc.{insert, delete}
use gobfd.Manager.{
  new_manager, create_session, check_new, check_duplicate, allocate_and_build, build_on, build,
  register_and_start,
}
use gobfd.Discriminator.{allocate, attempts, attempt, usable, contains}
use gobfd.Session.Config.{
  new_session, initial_session, is_valid_session_type, validate_session_auth_config,
  validate_session_config,
}
use gobfd.Auth.Sign.{build_auth_section, sign}
use gobfd.Auth.{authenticator_type, new_auth_state}
use gobfd.Duration.{microseconds_from_duration}
use gobfd.Packet.Marshal.{
  marshal_auth_section, marshal_control_packet, marshal_rest, pack_flags, write_header,
}
use gobfd.Session.Transmit.{
  build_control_packet, cache_packet, control_packet, rebuild_cached_packet, sign_cached_packet,
}
use gobfd.Tests.{counting, fast_config, plain_manager}
use gobfd.Tests.Managers.{plain-IsConsistent}

-- Two numbers as one.
abbrev pair : ℕ → ℕ → ℕ
pair a b = (a + b) * (a + b) + a

square_grows : (s k : ℕ) → s * s + s < (s + (1 + k)) * (s + (1 + k))
square_grows s k = omega (
  arith,
  mul-add s s (1 + k),
  mul-add s 1 k,
  add-mul s (1 + k) (s + (1 + k)),
  add-mul 1 k (s + (1 + k)),
)

not_below : (a b c d : ℕ) → a + b < c + d → pair a b < pair c d
not_below a b c d h =
    let s : ℕ = a + b in
    let k : ℕ = c + d - 1 - s in
    let sum : c + d ≡ s + (1 + k) = omega arith in
    let grown : s * s + s < (c + d) * (c + d) = rw sum (square_grows s k) in omega arith

same_sum : (a b c d : ℕ) → pair a b ≡ pair c d → a + b ≡ c + d
same_sum a b c d e = elim (Bool-cases (ltb (a + b) (c + d))) [
  | inl less ↦ absurd (omega (arith, e, not_below a b c d (ground arith)))
  | inr at_least ↦ elim (Bool-cases (ltb (c + d) (a + b))) [
    | inl more ↦ absurd (omega (arith, e, not_below c d a b (ground arith)))
    | inr at_most ↦ ground arith
  ]
]

pair-injective : (a b c d : ℕ) → pair a b ≡ pair c d → (a ≡ c) × (b ≡ d)
pair-injective a b c d e =
    let s = same_sum a b c d e in
    let squares : (a + b) * (a + b) ≡ (c + d) * (c + d) = ap (λ n. n * n) s in
    (omega arith, omega arith)

abbrev addr_number : Addr → ℕ
addr_number addr = pair (pair addr.bit_len addr.value) addr.zone

addr_number-injective : (a b : Addr) → addr_number a ≡ addr_number b → a ≡ b
addr_number-injective a b e =
    let (front, zones) =
      pair-injective (pair a.bit_len a.value) a.zone (pair b.bit_len b.value) b.zone e in
    let (lens, values) = pair-injective a.bit_len a.value b.bit_len b.value front in
    λ i. record { bit_len = lens i; value = values i; zone = zones i }

-- A text of a key.
abbrev key_text : SessionKey → ℕ
key_text k = pair (pair (addr_number k.key_peer_addr) (addr_number k.key_local_addr)) k.key_if_name

key_text-injective : (k j : SessionKey) → key_text k ≡ key_text j → k ≡ j
key_text-injective k j e =
    let (addrs, names) =
      pair-injective (pair (addr_number k.key_peer_addr) (addr_number k.key_local_addr))
        k.key_if_name (pair (addr_number j.key_peer_addr) (addr_number j.key_local_addr))
        j.key_if_name e in
    let (peers, locals) =
      pair-injective (addr_number k.key_peer_addr) (addr_number k.key_local_addr)
        (addr_number j.key_peer_addr) (addr_number j.key_local_addr) addrs in
    λ i. record {
      key_peer_addr = addr_number-injective k.key_peer_addr j.key_peer_addr peers i;
      key_local_addr = addr_number-injective k.key_local_addr j.key_local_addr locals i;
      key_if_name = names i;
    }

abbrev one_desired : List (ReconcileConfig SessionConfig)
one_desired = record { rc_key = key_text (key_of fast_config); rc_config = fast_config } ∷ []

no_errors : (reconcile_sessions key_text (λ n. counting) one_desired plain_manager).all_errs ≡ []
unfolding reconcile_sessions insert delete lookup session_key_set new_manager create_session
    check_new check_duplicate allocate_and_build build_on allocate attempts attempt usable contains
    build new_session build_auth_section sign authenticator_type new_auth_state
    microseconds_from_duration create_missing desired_keys destroy_unwanted key_set reconcile
    register_and_start marshal_auth_section marshal_control_packet marshal_rest pack_flags
    write_header initial_session is_valid_session_type validate_session_auth_config
    validate_session_config build_control_packet cache_packet control_packet rebuild_cached_packet
    sign_cached_packet
no_errors = refl

reconcile_settles_example :
    ((k : SessionKey)
      → is_some (
          lookup k
            (reconcile_sessions key_text
              (λ n. counting)
              one_desired
              plain_manager).after.sessions_by_peer)
        ≡ is_some (lookup (key_text k) (desired_keys one_desired [])))
    × ((k : SessionKey) (p : ℕ)
        → lookup k plain_manager.sessions_by_peer ≡ some p
        → is_some (lookup (key_text k) (desired_keys one_desired [])) ≡ true
        → lookup k
            (reconcile_sessions key_text
              (λ n. counting)
              one_desired
              plain_manager).after.sessions_by_peer
          ≡ some p)
reconcile_settles_example =
    reconcile_settles key_text key_text-injective (λ n. counting) one_desired plain_manager
      (refl, tt) plain-IsConsistent no_errors
