-- ===== src/Packet/AuthBytes.antt =====
-- The authentication section of a BFD Control packet (internal/bfd/packet.go): the bytes that
-- marshalAuthSection writes and what unmarshalAuthSection reads from them.
use gobfd.Common.{
  ℕ, suc, ◌+◌, ◌-◌, ◌^◌, ◌<◌, ◌≤◌, ◌≡◌, refl, ap, ◌∙◌, List, [], ◌∷◌, ◌++◌, Option, none, some,
  Bool, true, false, ◌==◌, arith, length, drop, uint32_bytes, ok, leb, ==_iff, le→leb, le→not_ltb,
  take_all, write_at_front, uint32_round_trip,
}
use gobfd.Packet.{
  AuthType, no_auth, unknown, simple_password, keyed_md5, meticulous_keyed_md5, keyed_sha1,
  meticulous_keyed_sha1, AuthSection, auth_type_code,
}
use gobfd.Packet.Marshal.{marshal_hash_body, marshal_auth_section, marshal_auth_body}
use gobfd.Packet.Unmarshal.{
  unmarshal_auth_section, unmarshal_hash_auth, unmarshal_auth_body, unmarshal_simple_password,
}

-- The fields that the wire layout of each type holds, and the values of the others.
abbrev pub HasShape : AuthType → AuthSection → Type 0
HasShape simple_password a =
    (a.len ≡ length a.auth_data + 3)
    × (1 ≤ length a.auth_data)
    × (length a.auth_data ≤ 16)
    × (a.sequence_number ≡ 0)
    × (a.digest ≡ [])
HasShape no_auth a = ⊥
HasShape (unknown n) a = ⊥
HasShape keyed_md5 a =
    (a.len ≡ 24) × (length a.digest ≡ 16) × (a.sequence_number < 2 ^ 32) × (a.auth_data ≡ [])
HasShape meticulous_keyed_md5 a =
    (a.len ≡ 24) × (length a.digest ≡ 16) × (a.sequence_number < 2 ^ 32) × (a.auth_data ≡ [])
HasShape keyed_sha1 a =
    (a.len ≡ 28) × (length a.digest ≡ 20) × (a.sequence_number < 2 ^ 32) × (a.auth_data ≡ [])
HasShape meticulous_keyed_sha1 a =
    (a.len ≡ 28) × (length a.digest ≡ 20) × (a.sequence_number < 2 ^ 32) × (a.auth_data ≡ [])

-- The A bit is set exactly if there is a section, and that section is well formed.
abbrev pub AuthAgrees : Bool → Option AuthSection → Type 0
AuthAgrees false none = Unit
AuthAgrees false (some a) = ⊥
AuthAgrees true none = ⊥
AuthAgrees true (some a) = HasShape a.auth_type a

abbrev pub hash_bytes : AuthType → AuthSection → List ℕ
hash_bytes t a =
    auth_type_code t ∷ a.len ∷ a.key_id ∷ 0 ∷ (uint32_bytes a.sequence_number ++ a.digest)

abbrev pub auth_bytes : AuthType → AuthSection → List ℕ
auth_bytes simple_password a = auth_type_code simple_password ∷ a.len ∷ a.key_id ∷ a.auth_data
auth_bytes t a = hash_bytes t a

hash_body_written :
    (a : AuthSection) (x y c d e f g h : ℕ) (rest : List ℕ) (n : ℕ)
    → length a.digest ≡ n
    → n ≤ length rest
    → marshal_hash_body a (x ∷ y ∷ c ∷ d ∷ e ∷ f ∷ g ∷ h ∷ rest)
      ≡ (x ∷ y ∷ a.key_id ∷ 0 ∷ (uint32_bytes a.sequence_number ++ (a.digest ++ drop n rest)), none)
unfolding marshal_hash_body
hash_body_written a x y c d e f g h rest n size room =
    let small = le→not_ltb (length (x ∷ y ∷ c ∷ d ∷ e ∷ f ∷ g ∷ h ∷ rest)) 8 (omega arith) in
    rw (small, write_at_front a.digest rest (omega arith), size)

password_written :
    (a : AuthSection) (x y c : ℕ) (rest : List ℕ)
    → length a.auth_data ≤ length rest
    → marshal_auth_body simple_password a (x ∷ y ∷ c ∷ rest)
      ≡ (x ∷ y ∷ a.key_id ∷ (a.auth_data ++ drop (length a.auth_data) rest), none)
unfolding marshal_auth_body
password_written a x y c rest room =
    let small = le→not_ltb (length (x ∷ y ∷ c ∷ rest)) 3 (omega arith) in
    rw (small, write_at_front a.auth_data rest room)

drop_len :
    (n m : ℕ) (x y c : ℕ) (rest : List ℕ) → n ≡ m + 3 → drop n (x ∷ y ∷ c ∷ rest) ≡ drop m rest
drop_len n m x y c rest e = let k : n ≡ suc (suc (suc m)) = omega arith in rw k

-- The section behind its type and length bytes.
body_written :
    (t : AuthType) (a : AuthSection) (x y : ℕ) (buf : List ℕ)
    → HasShape t a
    → a.len ≤ length (x ∷ y ∷ buf)
    → marshal_auth_body t a (x ∷ y ∷ buf)
      ≡ (x ∷ y ∷ drop 2 (auth_bytes t a) ++ drop a.len (x ∷ y ∷ buf), none)
unfolding marshal_auth_body
body_written no_auth a x y buf s room = absurd s
body_written (unknown n) a x y buf s room = absurd s
body_written simple_password a x y (c ∷ rest) s room =
    password_written a x y c rest (omega arith)
    ∙ rw (drop_len a.len (length a.auth_data) x y c rest s.0)
body_written keyed_md5 a x y (c ∷ d ∷ e ∷ f ∷ g ∷ h ∷ rest) s room =
    rw (s.0, hash_body_written a x y c d e f g h rest 16 s.1 (omega arith))
body_written meticulous_keyed_md5 a x y (c ∷ d ∷ e ∷ f ∷ g ∷ h ∷ rest) s room =
    rw (s.0, hash_body_written a x y c d e f g h rest 16 s.1 (omega arith))
body_written keyed_sha1 a x y (c ∷ d ∷ e ∷ f ∷ g ∷ h ∷ rest) s room =
    rw (s.0, hash_body_written a x y c d e f g h rest 20 s.1 (omega arith))
body_written meticulous_keyed_sha1 a x y (c ∷ d ∷ e ∷ f ∷ g ∷ h ∷ rest) s room =
    rw (s.0, hash_body_written a x y c d e f g h rest 20 s.1 (omega arith))
body_written t a x y buf s room = absurd (omega arith)

pub len_bounds : (t : AuthType) (a : AuthSection) → HasShape t a → (4 ≤ a.len) × (a.len ≤ 28)
len_bounds no_auth a s = absurd s
len_bounds (unknown n) a s = absurd s
len_bounds _ a s = (omega arith, omega arith)

pub length-auth_bytes :
    (t : AuthType) (a : AuthSection) → HasShape t a → length (auth_bytes t a) ≡ a.len
length-auth_bytes no_auth a s = absurd s
length-auth_bytes (unknown n) a s = absurd s
length-auth_bytes _ a s = omega arith

auth_bytes_front :
    (t : AuthType) (a : AuthSection)
    → auth_type_code t ∷ a.len ∷ drop 2 (auth_bytes t a) ≡ auth_bytes t a
auth_bytes_front simple_password a = refl
auth_bytes_front _ a = refl

-- The section is written in front of the buffer.
pub section_written :
    (a : AuthSection) (buf : List ℕ)
    → HasShape a.auth_type a
    → a.len ≤ length buf
    → (tail : List ℕ) × (marshal_auth_section a buf ≡ (auth_bytes a.auth_type a ++ tail, none))
unfolding marshal_auth_section
section_written a (x ∷ y ∷ buf) s room =
    let t = a.auth_type in
    let fits = le→not_ltb (length (x ∷ y ∷ buf)) a.len room in
    let two = le→not_ltb (length (x ∷ y ∷ buf)) 2 (omega arith) in
    (
      drop a.len (auth_type_code t ∷ a.len ∷ buf),
      rw (fits, two, body_written t a (auth_type_code t) a.len buf s room)
          (ap (λ l. (l ++ drop a.len (auth_type_code t ∷ a.len ∷ buf), none))
            (auth_bytes_front t a)),
    )
section_written a _ s room = absurd (omega (arith, len_bounds a.auth_type a s))

hash_auth_read :
    (t : AuthType) (a : AuthSection) (n size : ℕ)
    → a.len ≡ n
    → n ≡ size + 8
    → length a.digest ≡ size
    → a.sequence_number < 2 ^ 32
    → a.auth_data ≡ []
    → unmarshal_hash_auth (hash_bytes t a) t a.len n size ≡ ok (record a { auth_type = t })
unfolding unmarshal_hash_auth
hash_auth_read t a n size l e d q k =
    let same : (a.len == n) ≡ true = (==_iff a.len n).1 l in
    let room : leb n (length (hash_bytes t a)) ≡ true = le→leb _ _ (omega arith) in
    rw (same, room, uint32_round_trip a.sequence_number q, take_all size a.digest d, k)

-- The two tests that every type passes before its body is read.
head_read :
    (t : AuthType) (a : AuthSection)
    → HasShape t a
    → unmarshal_auth_section (auth_bytes t a) ≡ unmarshal_auth_body t a.len (auth_bytes t a)
unfolding unmarshal_auth_section
head_read no_auth a s = absurd s
head_read (unknown n) a s = absurd s
head_read t a s =
    let n = length (auth_bytes t a) in
    let two : leb 2 n ≡ true = le→leb 2 n (omega arith) in
    let room : leb a.len (n + 24) ≡ true = le→leb a.len (n + 24) (omega arith) in rw (two, room)

password_read :
    (a : AuthSection)
    → HasShape simple_password a
    → unmarshal_simple_password (auth_bytes simple_password a) simple_password a.len
      ≡ ok (record a { auth_type = simple_password })
unfolding unmarshal_simple_password
password_read a s =
    let n = length a.auth_data in
    let e : a.len - 3 ≡ n = omega arith in
    let four : leb 4 a.len ≡ true = le→leb 4 a.len (omega arith) in
    let room : leb a.len (length (auth_bytes simple_password a)) ≡ true =
      le→leb _ _ (omega arith) in
    let lo : leb 1 n ≡ true = le→leb 1 n s.1 in
    let hi : leb n 16 ≡ true = le→leb n 16 s.2 in
    rw (four, room, e, lo, hi, take_all n a.auth_data refl, s.3, s.4)

pub section_read :
    (t : AuthType) (a : AuthSection)
    → HasShape t a
    → unmarshal_auth_section (auth_bytes t a) ≡ ok (record a { auth_type = t })
unfolding unmarshal_auth_body
section_read no_auth a s = absurd s
section_read (unknown n) a s = absurd s
section_read simple_password a s = head_read simple_password a s ∙ password_read a s
section_read keyed_md5 a s =
    head_read keyed_md5 a s ∙ hash_auth_read keyed_md5 a 24 16 s.0 refl s.1 s.2 s.3
section_read meticulous_keyed_md5 a s =
    head_read meticulous_keyed_md5 a s
    ∙ hash_auth_read meticulous_keyed_md5 a 24 16 s.0 refl s.1 s.2 s.3
section_read keyed_sha1 a s =
    head_read keyed_sha1 a s ∙ hash_auth_read keyed_sha1 a 28 20 s.0 refl s.1 s.2 s.3
section_read meticulous_keyed_sha1 a s =
    head_read meticulous_keyed_sha1 a s
    ∙ hash_auth_read meticulous_keyed_sha1 a 28 20 s.0 refl s.1 s.2 s.3
