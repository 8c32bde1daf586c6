-- ===== src/Config/Sound.antt =====
-- What a configuration that Validate of internal/config/config.go accepts is.
use gobfd.Common.{
  ℕ, ◌+◌, ◌≤◌, ◌≡◌, ◌≢◌, ◌⊎◌, ◌↔◌, refl, arith, List, [], ◌∷◌, none, some, true, length, ok,
}
use gobfd.Assoc.{lookup, insert, lookup-insert}
use gobfd.Netip.{Addr}
use gobfd.Config.{
  Text, codes, text_key, text_eq_iff, one_of, Library, AuthConfig, SessionConfig, is_empty,
  peer_addr,
}
use gobfd.Config.Validate.{
  Sentinel, Check, succeeds, check_each, validate_session, validate_session_auth,
  short_secret_types, long_secret_types, valid_session_types,
}

-- Being one of a list.
abbrev pub Among : Text → List Text → Type 0
Among s [] = ⊥
Among s (t ∷ rest) = (s ≡ t) ⊎ Among s rest

pub one_of_iff : (s : Text) (l : List Text) → (one_of s l ≡ true) ↔ Among s l
unfolding one_of
one_of_iff s [] = ground arith
one_of_iff s (t ∷ rest) = ground (arith, text_eq_iff s t, one_of_iff s rest)

abbrev pub AllGood : {Item : Type 0} → (Item → Type 0) → List Item → Type 0
AllGood Good [] = Unit
AllGood Good (item ∷ rest) = Good item × AllGood Good rest

module _ {Item : Type 0} (key : Item → Text) where
  -- No item has the key.
  abbrev pub Lacks : Text → List Item → Type 0
  Lacks k [] = Unit
  Lacks k (item ∷ rest) = (k ≢ key item) × Lacks k rest

  -- No two items have the same key.
  abbrev pub Apart : List Item → Type 0
  Apart [] = Unit
  Apart (item ∷ rest) = Lacks (key item) rest × Apart rest

  abbrev Unseen : List (Text × Unit {0}) → List Item → Type 0
  Unseen seen [] = Unit
  Unseen seen (item ∷ rest) = (lookup (key item) seen ≡ none) × Unseen seen rest

  seen_more :
      (k : Text) (seen : List (Text × Unit {0})) (items : List Item)
      → Unseen (insert k tt seen) items ↔ (Lacks k items × Unseen seen items)
  seen_more k seen [] = ground arith
  seen_more k seen (item ∷ rest) =
      ground
        (arith, lookup-insert k (key item) tt seen, text_eq_iff k (key item), seen_more k seen rest)

  Unseen-start : (items : List Item) → Unseen [] items
  unfolding lookup
  Unseen-start [] = tt
  Unseen-start (item ∷ rest) = (refl, Unseen-start rest)

module _ {Item : Type 0} (check : ℕ → Item → Check) (key : Item → Text) (duplicate : Sentinel)
    (Good : Item → Type 0)
    (check_iff : (i : ℕ) (item : Item) → (check i item ≡ ok tt) ↔ Good item) where
  each_iff :
      (i : ℕ) (seen : List (Text × Unit {0})) (items : List Item)
      → (check_each check key duplicate i seen items ≡ ok tt)
        ↔ (AllGood Good items × Apart key items × Unseen key seen items)
  unfolding check_each
  each_iff i seen [] = ground arith
  each_iff i seen (item ∷ rest) = ground (
    arith,
    check_iff i item,
    seen_more key (key item) seen rest,
    each_iff (i + 1) (insert (key item) tt seen) rest,
  )

  -- The loop accepts what is good and has no key twice.
  pub check_each_iff :
      (items : List Item)
      → (check_each check key duplicate 0 [] items ≡ ok tt) ↔ (AllGood Good items × Apart key items)
  check_each_iff items = ground (arith, each_iff 0 [] items, Unseen-start key items)

module _ (lib : Library) where
  -- A text that is the address of a peer.
  abbrev pub IsPeer : Text → Type 0
  IsPeer s = (s ≢ []) × ((addr : Addr) × (lib.parse_addr s ≡ some addr))

  pub IsPeer-iff : (s : Text) → (succeeds (peer_addr lib s) ≡ true) ↔ IsPeer s
  unfolding peer_addr
  IsPeer-iff [] = ground arith
  IsPeer-iff (c ∷ s) = ground arith

  abbrev pub AuthOff : AuthConfig → Type 0
  AuthOff auth =
      (lib.trim_space auth.auth_name ≡ []) ⊎ (lib.trim_space auth.auth_name ≡ codes "none")

  abbrev pub AuthOn : AuthConfig → Type 0
  AuthOn auth =
      (auth.key_id ≤ 255)
      × (1 ≤ length auth.auth_secret)
      × ((Among (lib.trim_space auth.auth_name) short_secret_types × (length auth.auth_secret ≤ 16))
          ⊎ (Among (lib.trim_space auth.auth_name) long_secret_types
              × (length auth.auth_secret ≤ 20)))

  pub empty_iff : (s : Text) → (is_empty s ≡ true) ↔ (s ≡ [])
  empty_iff [] = ground arith
  empty_iff (c ∷ s) = ground arith

  auth_iff :
      (i : ℕ) (auth : AuthConfig)
      → (validate_session_auth lib i auth ≡ ok tt) ↔ (AuthOff auth ⊎ AuthOn auth)
  unfolding validate_session_auth
  auth_iff i auth =
      let name = lib.trim_space auth.auth_name in
      ground (
        arith,
        empty_iff name,
        text_eq_iff name (codes "none"),
        one_of_iff name short_secret_types,
        one_of_iff name long_secret_types,
      )

  abbrev pub IsGoodSession : SessionConfig → Type 0
  IsGoodSession sc =
      IsPeer sc.peer
      × ((sc.type_name ≡ []) ⊎ Among sc.type_name valid_session_types)
      × (AuthOff sc.auth ⊎ AuthOn sc.auth)

  pub session_iff :
      (i : ℕ) (sc : SessionConfig) → (validate_session lib i sc ≡ ok tt) ↔ IsGoodSession sc
  unfolding validate_session
  session_iff i sc = ground (
    arith,
    IsPeer-iff sc.peer,
    empty_iff sc.type_name,
    one_of_iff sc.type_name valid_session_types,
    auth_iff i sc.auth,
  )
