-- ===== src/Netip.antt =====
-- Addresses of Go's net/netip. The repository has no code of its own for them: each function here
-- is the standard library's.
use gobfd.Common.{ℕ, ◌≡◌, ◌↔◌, Bool, true, not, ◌&&◌, ◌==◌, arith}
use gobfd.Assoc.{KeyType}

-- `netip.Addr`: 32 or 128 bits, or 0 for the zero value; a zone is a number, 0 if there is none.
pub record Addr : Type 0 where
  pub bit_len : ℕ
  pub value : ℕ
  pub zone : ℕ

abbrev pub is_valid : Addr → Bool
is_valid addr = not (addr.bit_len == 0)

-- `==` on addresses.
abbrev pub addr_eq : Addr → Addr → Bool
addr_eq a b = a.bit_len == b.bit_len && a.value == b.value && a.zone == b.zone

pub addr_eq_iff : (a b : Addr) → (addr_eq a b ≡ true) ↔ (a ≡ b)
addr_eq_iff a b = ground arith

instance abbrev pub addr_key : KeyType Addr
addr_key = record { same = addr_eq; same_iff = addr_eq_iff }
