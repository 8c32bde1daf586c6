-- ===== src/BgpHandler/Message.antt =====
-- The message of a peer that BFD disables: internal/gobgp/rfc9384.go. The text of the diagnostic is
-- given.
use gobfd.Common.{
  ◌≡◌, ◌↔◌, arith, [], ◌∷◌, ◌++◌, Bool, true, false, ◌&&◌, ◌==◌, if◌then◌else◌, length, drop,
}
use gobfd.Config.{Text, codes}

abbrev pub bfd_down_prefix : Text
bfd_down_prefix = codes "BFD Down (RFC 9384 Cease/10)"

unfoldable pub format_bfd_down_communication : Text → Text
format_bfd_down_communication diag = bfd_down_prefix ++ (codes ": diag=" ++ diag)

-- `strings.HasPrefix`.
unfoldable pub has_prefix : Text → Text → Bool
has_prefix c [] = true
has_prefix [] (b ∷ p) = false
has_prefix (a ∷ c) (b ∷ p) = a == b && has_prefix c p

-- What is behind a prefix and true, or the empty text and false.
abbrev pub behind_prefix : Text → Text → Text × Bool
behind_prefix p c = if has_prefix c p then (drop (length p) c, true) else ([], false)

unfoldable pub parse_bfd_down_communication : Text → Text × Bool
unfolding has_prefix
parse_bfd_down_communication c = behind_prefix (bfd_down_prefix ++ codes ": diag=") c

cut_iff : (p c d : Text) → ((has_prefix c p ≡ true) × (drop (length p) c ≡ d)) ↔ (c ≡ p ++ d)
unfolding has_prefix
cut_iff [] c d = ground arith
cut_iff (b ∷ p) [] d = ground arith
cut_iff (b ∷ p) (a ∷ c) d = ground (arith, cut_iff p c d)

read_iff : (p c d : Text) → (behind_prefix p c ≡ (d, true)) ↔ (c ≡ p ++ d)
read_iff p c d = ground (arith, cut_iff p c d)

-- A text is read as a message with a diagnostic if and only if it is the message that is written
-- for this diagnostic.
pub parse_iff_format :
    (c diag : Text)
    → (parse_bfd_down_communication c ≡ (diag, true)) ↔ (c ≡ format_bfd_down_communication diag)
unfolding parse_bfd_down_communication format_bfd_down_communication
parse_iff_format c diag = read_iff (bfd_down_prefix ++ codes ": diag=") c diag
