-- ===== src/Unsolicited/Policy.antt =====
-- Whom checkInterfacePolicy of internal/bfd/unsolicited.go lets in.
use gobfd.Common.{ℕ, ◌≡◌, ◌⊎◌, ◌↔◌, arith, List, [], ◌∷◌, Option, none, some, true, ok}
use gobfd.Netip.{Addr}
use gobfd.Unsolicited.{
  UnsolicitedPolicy, UnsolicitedInterfaceConfig, Prefix, prefix_contains, find_interface,
  check_interface, matches_any_prefix, check_interface_policy,
}

-- Some prefix of the list holds the address.
abbrev pub AnyContains : Addr → List Prefix → Type 0
AnyContains addr [] = ⊥
AnyContains addr (p ∷ rest) = (prefix_contains p addr ≡ true) ⊎ AnyContains addr rest

any_contains :
    (addr : Addr) (l : List Prefix) → (matches_any_prefix addr l ≡ true) ↔ AnyContains addr l
unfolding matches_any_prefix
any_contains addr [] = ground arith
any_contains addr (p ∷ l) = ground (arith, any_contains addr l)

abbrev pub Admits : Option UnsolicitedInterfaceConfig → Addr → Type 0
Admits none addr = ⊥
Admits (some cfg) addr =
    (cfg.if_enabled ≡ true) × ((cfg.allowed_prefixes ≡ []) ⊎ AnyContains addr cfg.allowed_prefixes)

check_interface-Admits :
    (o : Option UnsolicitedInterfaceConfig) (addr : Addr)
    → (check_interface addr o ≡ ok tt) ↔ Admits o addr
check_interface-Admits none addr = ground arith
check_interface-Admits (some cfg) addr = ground (arith, any_contains addr cfg.allowed_prefixes)

-- A peer is let in exactly if there is a policy that is enabled, the interface is listed in it and
-- is enabled, and the interface has no allowed prefixes or one of them contains the peer's address.
pub policy-Admits_iff :
    (policy : UnsolicitedPolicy) (addr : Addr) (name : ℕ)
    → (check_interface_policy (some policy) addr name ≡ ok tt)
      ↔ ((policy.enabled ≡ true) × Admits (find_interface policy.interfaces name) addr)
unfolding check_interface_policy
policy-Admits_iff policy addr name =
    ground (arith, check_interface-Admits (find_interface policy.interfaces name) addr)
