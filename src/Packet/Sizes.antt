-- ===== src/Packet/Sizes.antt =====
-- The length of the buffer in MarshalControlPacket (internal/bfd/packet.go).
use gobfd.Common.{
  ℕ, ◌+◌, ◌≡◌, refl, ◌∙◌, arith, List, [], ◌∷◌, Option, none, some, ltb, Bool-cases, inl, inr,
  length, take, drop, length-append, length-take, length-drop, length-write_at,
}
use gobfd.Packet.{
  AuthType, auth_type_code, no_auth, unknown, simple_password, AuthSection, ControlPacket,
}
use gobfd.Packet.Marshal.{
  write_header, marshal_hash_body, marshal_auth_body, marshal_auth_section, marshal_rest, sent_auth,
  auth_size, marshal_control_packet,
}

pub length-write_header :
    (pkt : ControlPacket) (n : ℕ) (buf : List ℕ) → length (write_header pkt n buf) ≡ length buf
unfolding write_header
length-write_header pkt n buf = simp length-write_at

length-hash_body :
    (a : AuthSection) (buf : List ℕ) → length (marshal_hash_body a buf).0 ≡ length buf
unfolding marshal_hash_body
length-hash_body a buf = elim (Bool-cases (ltb (length buf) 8)) [
  | inl e ↦ rw (e, marshal_hash_body)
  | inr e ↦ rw (e, marshal_hash_body) (simp length-write_at)
]

length-auth_body :
    (t : AuthType) (a : AuthSection) (buf : List ℕ)
    → length (marshal_auth_body t a buf).0 ≡ length buf
unfolding marshal_auth_body
length-auth_body simple_password a buf = elim (Bool-cases (ltb (length buf) 3)) [
  | inl e ↦ rw e
  | inr e ↦ rw e (simp length-write_at)
]
length-auth_body no_auth a buf = refl
length-auth_body (unknown n) a buf = refl
length-auth_body _ a buf = length-hash_body a buf

length-auth_section :
    (a : AuthSection) (buf : List ℕ) → length (marshal_auth_section a buf).0 ≡ length buf
unfolding marshal_auth_section
length-auth_section a buf = elim (Bool-cases (ltb (length buf) a.len)) [
  | inl e ↦ rw e
  | inr e ↦ elim (Bool-cases (ltb (length buf) 2)) [
    | inl f ↦ rw (e, f)
    | inr f ↦
        rw (e, f)
          (length-auth_body a.auth_type a _
            ∙ length-write_at 0 (auth_type_code a.auth_type ∷ a.len ∷ []) buf)
  ]
]

length-rest :
    (o : Option AuthSection) (n : ℕ) (buf : List ℕ) → length (marshal_rest o n buf).0 ≡ length buf
unfolding marshal_rest
length-rest none n buf = refl
length-rest (some a) n buf = omega (
  arith,
  length-append (take 24 buf) (marshal_auth_section a (drop 24 buf)).0,
  length-take 24 buf,
  length-drop 24 buf,
  length-auth_section a (drop 24 buf),
)

-- On success and on every error the buffer keeps its length.
pub length-marshal :
    (pkt : ControlPacket) (buf : List ℕ) → length (marshal_control_packet pkt buf).0 ≡ length buf
unfolding marshal_control_packet
length-marshal pkt buf =
    let n = 24 + auth_size (sent_auth pkt) in
    elim (Bool-cases (ltb (length buf) n)) [
      | inl e ↦ rw e
      | inr e ↦
          rw e
            (length-rest (sent_auth pkt) n (write_header pkt n buf) ∙ length-write_header pkt n buf)
    ]
