-- ===== src/Server/Response.antt =====
-- What a route answers: a status with a text, or what the handler goes on with: the upgrade
-- to a WebSocket, or the body of an answer 200.
use pi_piper.Prelude.{ℕ, String}

pub data Response {ℓ} (A : Type ℓ) : Type ℓ where
  rejected : ℕ → String → Response A
  accepted : A → Response A
