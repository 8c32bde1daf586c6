-- ===== src/Auth/Sizes.antt =====
-- The length of the buffer in the Sign methods of internal/bfd/auth.go.
use gobfd.Common.{ℕ, ◌≡◌, refl, ◌∙◌, List, length, Result, ok, err, length-write_at}
use gobfd.Packet.{ControlPacket, AuthSection, Error}
use gobfd.Packet.Sizes.{length-marshal}
use gobfd.Auth.{
  Authenticator, simple_password_auth, AuthState, KeyStore, HashParams, params_of, Crypto,
}
use gobfd.Auth.Sign.{finish_sign, sign_hash, sign, sign_simple_password}

module _ (crypto : Crypto) where
  length-finish_sign :
      (state : AuthState) (pkt : ControlPacket) (a : AuthSection) (p : HashParams) (buf : List ℕ)
      (r : Result Error ℕ)
      → length (finish_sign crypto state pkt a p buf r).buffer ≡ length buf
  unfolding finish_sign
  length-finish_sign state pkt a p buf (err e) = refl
  length-finish_sign state pkt a p buf (ok n) = length-write_at 32 _ buf

  length-sign_hash :
      (state : AuthState) (store : KeyStore) (pkt : ControlPacket) (buf : List ℕ) (p : HashParams)
      → length (sign_hash crypto state store pkt buf p).buffer ≡ length buf
  unfolding sign_hash
  length-sign_hash state store pkt buf p = length-finish_sign _ _ _ p _ _ ∙ length-marshal _ buf

  -- On success and on failure the buffer keeps its length.
  pub length-sign :
      (auth : Authenticator) (state : AuthState) (store : KeyStore) (pkt : ControlPacket)
      (buf : List ℕ)
      → length (sign crypto auth state store pkt buf).buffer ≡ length buf
  unfolding sign sign_simple_password
  length-sign simple_password_auth state store pkt buf = refl
  length-sign _ state store pkt buf = length-sign_hash state store pkt buf (params_of _)
