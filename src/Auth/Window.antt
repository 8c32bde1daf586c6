-- ===== src/Auth/Window.antt =====
-- The circular window of sequence numbers: SeqInWindow of internal/bfd/auth.go.
use gobfd.Common.{ℕ, ◌+◌, ◌%◌, ◌^◌, ◌<◌, ◌≤◌, ◌≡◌, ◌↔◌, arith, true, leb→le, le→leb}
use gobfd.Auth.{sub_uint32, seq_in_window}

-- For uint32 values, a number is in the window from `lo` to `hi` exactly if it is reached from `lo`
-- by adding, with wrap-around, no more than the distance from `lo` to `hi`.
pub seq_in_window_iff :
    (seq lo hi : ℕ)
    → seq < 2 ^ 32
    → lo < 2 ^ 32
    → hi < 2 ^ 32
    → (seq_in_window seq lo hi ≡ true)
      ↔ ((k : ℕ) × (k ≤ sub_uint32 hi lo) × (seq ≡ (lo + k) % 2 ^ 32))
unfolding seq_in_window
seq_in_window_iff seq lo hi hs hl hh =
    (λ e. (sub_uint32 seq lo, leb→le _ _ e, omega arith), λ w. le→leb _ _ (omega (arith, w.1, w.2)))

-- After `rcv` the next `m` numbers are accepted with a strict window and no other, for 0 < m.
pub strict_window :
    (seq rcv m : ℕ)
    → seq < 2 ^ 32
    → rcv < 2 ^ 32
    → 0 < m
    → m < 2 ^ 31
    → seq_in_window seq ((rcv + 1) % 2 ^ 32) ((rcv + m) % 2 ^ 32) ≡ true
    → (k : ℕ) × (1 ≤ k) × (k ≤ m) × (seq ≡ (rcv + k) % 2 ^ 32)
unfolding seq_in_window
strict_window seq rcv m hs hr pos small e =
    let le = leb→le _ _ e in (sub_uint32 seq rcv, omega arith, omega arith, omega arith)

pub loose_window :
    (seq rcv m : ℕ)
    → seq < 2 ^ 32
    → rcv < 2 ^ 32
    → m < 2 ^ 31
    → seq_in_window seq rcv ((rcv + m) % 2 ^ 32) ≡ true
    → (k : ℕ) × (k ≤ m) × (seq ≡ (rcv + k) % 2 ^ 32)
unfolding seq_in_window
loose_window seq rcv m hs hr small e =
    let le = leb→le _ _ e in (sub_uint32 seq rcv, omega arith, omega arith)
