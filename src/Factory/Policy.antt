-- ===== src/Factory/Policy.antt =====
-- The policy for unsolicited sessions from its configuration: buildUnsolicitedPolicy of
-- cmd/gobfd/factory.go. `parse_prefix` is netip.ParsePrefix, of which an error is `none`; an interface is
-- called by its number.
use gobfd.Common.{
  ℕ, ◌≤◌, ◌≡◌, ◌⊎◌, ◌↔◌, refl, sym, ap, arith, List, [], ◌∷◌, Option, none, some, Bool, true, leb,
  ◌==◌, if◌then◌else◌, Result, ok, err, ◌>>=◌, ◌>>◌, guard, inl, inr, >>=-eq-ok, guard->>-eq-ok,
  ok-injective,
}
use mathlib.Core.Path.{subst}
use gobfd.Duration.{ℤ}
use gobfd.Netip.{Addr}
use gobfd.Unsolicited.{
  UnsolicitedPolicy, UnsolicitedInterfaceConfig, Prefix, prefix_contains, find_interface,
  check_interface_policy,
}
use gobfd.Unsolicited.Policy.{AnyContains, Admits, policy-Admits_iff}
use gobfd.Config.{Text}
use gobfd.Factory.{FactoryError, detect_mult_overflow, prefix_failed}

pub record InterfaceConfig : Type 0 where
  pub listed_enabled : Bool
  pub prefix_texts : List Text

pub record UnsolicitedConfig : Type 0 where
  pub unsolicited_enabled : Bool
  pub most_sessions : ℤ
  pub unsolicited_cleanup : ℤ
  pub listed : List (ℕ × InterfaceConfig)
  pub defaults_min_tx : ℤ
  pub defaults_min_rx : ℤ
  pub defaults_detect_mult : ℕ

module _ (parse_prefix : Text → Option Prefix) where
  abbrev pub parsed_prefix : Option Prefix → Result FactoryError Prefix
  parsed_prefix none = err prefix_failed
  parsed_prefix (some p) = ok p

  unfoldable pub parse_prefixes : List Text → Result FactoryError (List Prefix)
  parse_prefixes [] = ok []
  parse_prefixes (s ∷ rest) =
      let later = parse_prefixes rest in
      parsed_prefix (parse_prefix s) >>= (λ p. later >>= (λ ps. ok (p ∷ ps)))

  unfoldable pub build_interfaces :
      List (ℕ × InterfaceConfig) → Result FactoryError (List (ℕ × UnsolicitedInterfaceConfig))
  unfolding parse_prefixes
  build_interfaces [] = ok []
  build_interfaces ((name, c) ∷ rest) =
      let later = build_interfaces rest in
      parse_prefixes c.prefix_texts >>= (λ ps. later >>= (λ rows.
        ok ((name, record { if_enabled = c.listed_enabled; allowed_prefixes = ps }) ∷ rows)))

  unfoldable pub build_unsolicited_policy :
      UnsolicitedConfig → Result FactoryError UnsolicitedPolicy
  unfolding build_interfaces
  build_unsolicited_policy cfg = do
    rows ← build_interfaces cfg.listed
    guard (leb cfg.defaults_detect_mult 255) detect_mult_overflow
    ok (record {
      enabled = cfg.unsolicited_enabled;
      interfaces = rows;
      max_sessions = cfg.most_sessions;
      session_defaults = record {
        desired_min_tx_interval = cfg.defaults_min_tx;
        required_min_rx_interval = cfg.defaults_min_rx;
        detect_multiplier = cfg.defaults_detect_mult;
      };
      cleanup_timeout = cfg.unsolicited_cleanup;
    })

  -- Some text of the list is a prefix that holds the address.
  abbrev pub AnyText : Addr → List Text → Type 0
  AnyText addr [] = ⊥
  AnyText addr (s ∷ rest) =
      ((p : Prefix) × (parse_prefix s ≡ some p) × (prefix_contains p addr ≡ true))
      ⊎ AnyText addr rest

  abbrev pub ConfigAdmits : Addr → ℕ → List (ℕ × InterfaceConfig) → Type 0
  ConfigAdmits addr name [] = ⊥
  ConfigAdmits addr name ((k, c) ∷ rest) =
      if k == name
      then (c.listed_enabled ≡ true) × ((c.prefix_texts ≡ []) ⊎ AnyText addr c.prefix_texts)
      else ConfigAdmits addr name rest

  is_parsed : (o : Option Prefix) (p : Prefix) → parsed_prefix o ≡ ok p → o ≡ some p
  is_parsed none p e = cc
  is_parsed (some q) p e = ap some (ok-injective e)

  head_kept :
      (addr : Addr) (p : Prefix) (ps : List Prefix) (s : Text) (rest : List Text)
      → parse_prefix s ≡ some p
      → (AnyContains addr ps ↔ AnyText addr rest)
      → AnyContains addr (p ∷ ps) ↔ AnyText addr (s ∷ rest)
  head_kept addr p ps s rest is_p later = (forward, backward)
    where
      forward : AnyContains addr (p ∷ ps) → AnyText addr (s ∷ rest)
      forward (inl holds) = inl (p, is_p, holds)
      forward (inr h) = inr (later.0 h)

      backward : AnyText addr (s ∷ rest) → AnyContains addr (p ∷ ps)
      backward (inl (q, is_q, holds)) = inl (ground arith)
      backward (inr h) = inr (later.1 h)

  prefixes_kept :
      (addr : Addr) (texts : List Text) (ps : List Prefix)
      → parse_prefixes texts ≡ ok ps
      → ((ps ≡ []) ↔ (texts ≡ [])) × (AnyContains addr ps ↔ AnyText addr texts)
  unfolding parse_prefixes
  prefixes_kept addr [] ps e =
      subst (λ l. ((l ≡ []) ↔ (◌≡◌ {A = List Text} [] [])) × (AnyContains addr l ↔ ⊥))
        (ok-injective e) ((λ h. refl, λ h. refl), (λ h. h, λ h. h))
  prefixes_kept addr (s ∷ rest) ps e =
      let (p, one, behind) = >>=-eq-ok (parsed_prefix (parse_prefix s)) _ e in
      let (ps', later, last) = >>=-eq-ok (parse_prefixes rest) _ behind in
      subst (λ l. ((l ≡ []) ↔ (s ∷ rest ≡ [])) × (AnyContains addr l ↔ AnyText addr (s ∷ rest)))
        (ok-injective last)
        (
          ground arith,
          head_kept addr p ps' s rest (is_parsed (parse_prefix s) p one)
              (prefixes_kept addr rest ps' later).1,
        )

  rows_kept :
      (addr : Addr) (name : ℕ) (l : List (ℕ × InterfaceConfig))
      (rows : List (ℕ × UnsolicitedInterfaceConfig))
      → build_interfaces l ≡ ok rows
      → Admits (find_interface rows name) addr ↔ ConfigAdmits addr name l
  unfolding build_interfaces
  rows_kept addr name [] rows e =
      subst (λ r. Admits (find_interface r name) addr ↔ ⊥) (ok-injective e) (λ h. h, λ h. h)
  rows_kept addr name ((k, c) ∷ rest) rows e =
      let (ps, one, behind) = >>=-eq-ok (parse_prefixes c.prefix_texts) _ e in
      let (rows', later, last) = >>=-eq-ok (build_interfaces rest) _ behind in
      let kept = prefixes_kept addr c.prefix_texts ps one in
      subst (λ r. Admits (find_interface r name) addr ↔ ConfigAdmits addr name ((k, c) ∷ rest))
        (ok-injective last) (ground (arith, kept, rows_kept addr name rest rows' later))

  -- The numbers of the configuration, whose multiplier is a byte, are those of the policy.
  pub record Carries (cfg : UnsolicitedConfig) (policy : UnsolicitedPolicy) : Type 0 where
    pub same_limit : policy.max_sessions ≡ cfg.most_sessions
    pub same_tx : policy.session_defaults.desired_min_tx_interval ≡ cfg.defaults_min_tx
    pub same_rx : policy.session_defaults.required_min_rx_interval ≡ cfg.defaults_min_rx
    pub same_mult : policy.session_defaults.detect_multiplier ≡ cfg.defaults_detect_mult
    pub mult_fits : cfg.defaults_detect_mult ≤ 255
    pub same_cleanup : policy.cleanup_timeout ≡ cfg.unsolicited_cleanup

  -- A policy that was built admits a peer on an interface exactly if the configuration is enabled,
  -- lists the interface as enabled, and gives it no prefixes or a text that is a prefix which
  -- contains the peer's address. It has the limit, the intervals, the multiplier, which is a byte, and
  -- the clean-up time of the configuration.
  pub built-Admits :
      (cfg : UnsolicitedConfig) (policy : UnsolicitedPolicy) (addr : Addr) (name : ℕ)
      → build_unsolicited_policy cfg ≡ ok policy
      → ((check_interface_policy (some policy) addr name ≡ ok tt)
          ↔ ((cfg.unsolicited_enabled ≡ true) × ConfigAdmits addr name cfg.listed))
        × Carries cfg policy
  unfolding build_unsolicited_policy
  built-Admits cfg policy addr name e =
      let (rows, built, behind) = >>=-eq-ok (build_interfaces cfg.listed) _ e in
      let (small, last) =
        guard->>-eq-ok (leb cfg.defaults_detect_mult 255) detect_mult_overflow _ behind in
      let same = ok-injective last in
      let admits = policy-Admits_iff policy addr name in
      let kept = rows_kept addr name cfg.listed rows built in
      let on : policy.enabled ≡ cfg.unsolicited_enabled = ap (λ p. p.enabled) (sym same) in
      let listed : policy.interfaces ≡ rows = ap (λ p. p.interfaces) (sym same) in
      let whole =
        subst
          (λ r.
            (check_interface_policy (some policy) addr name ≡ ok tt)
            ↔ ((cfg.unsolicited_enabled ≡ true) × Admits (find_interface r name) addr))
          listed
          (subst
            (λ b.
              (check_interface_policy (some policy) addr name ≡ ok tt)
              ↔ ((b ≡ true) × Admits (find_interface policy.interfaces name) addr))
            on admits) in
      (
        (λ h. ((whole.0 h).0, kept.0 (whole.0 h).1), λ h. whole.1 (h.0, kept.1 h.1)),
        record {
          same_limit = ap (λ p. p.max_sessions) (sym same);
          same_tx = ap (λ p. p.session_defaults.desired_min_tx_interval) (sym same);
          same_rx = ap (λ p. p.session_defaults.required_min_rx_interval) (sym same);
          same_mult = ap (λ p. p.session_defaults.detect_multiplier) (sym same);
          mult_fits = ground arith;
          same_cleanup = ap (λ p. p.cleanup_timeout) (sym same);
        },
      )
