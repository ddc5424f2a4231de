-- ===== src/Watch.antt =====
-- `tokio::sync::watch` for a Boolean, as `src/session.rs` uses it. The crate is not part of the
-- repository: a sender's state and its operations are a parameter, with the documented laws that
-- the hub relies on.
use pi_piper.Prelude.{ℕ, suc, ◌-◌, ◌<◌, ◌≡◌, Bool}

pub record Watch (W : Type 0) : Type 0 where
  -- The sender of `watch::channel(value)` once the first receiver is dropped.
  pub channel : Bool → W
  pub send : Bool → W → W
  -- `subscribe`, and the drop of a receiver
  pub subscribe : W → W
  pub release : W → W
  pub borrow : W → Bool
  pub receiver_count : W → ℕ
  -- laws
  pub borrow-channel : (b : Bool) → borrow (channel b) ≡ b
  pub receiver_count-channel : (b : Bool) → receiver_count (channel b) ≡ 0
  -- `send` fails when every receiver has been dropped, and the value is then not made available.
  pub send_closed : (b : Bool) (w : W) → receiver_count w ≡ 0 → send b w ≡ w
  pub borrow-send : (b : Bool) (w : W) → 0 < receiver_count w → borrow (send b w) ≡ b
  pub receiver_count-send : (b : Bool) (w : W) → receiver_count (send b w) ≡ receiver_count w
  pub borrow-subscribe : (w : W) → borrow (subscribe w) ≡ borrow w
  pub receiver_count-subscribe : (w : W) → receiver_count (subscribe w) ≡ suc (receiver_count w)
  pub borrow-release : (w : W) → borrow (release w) ≡ borrow w
  pub receiver_count-release : (w : W) → receiver_count (release w) ≡ receiver_count w - 1
