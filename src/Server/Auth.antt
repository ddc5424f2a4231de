-- ===== src/Server/Auth.antt =====
-- src/server/auth.rs: the two authorization checks. `HeaderMap` is the `http` crate's: its type and
-- its lookups are a parameter.
pub mod Decision
use pi_piper.Prelude.{
  ℕ, String, ◌≡◌, ◌≢◌, ◌↔◌, Bool, true, false, not, Option, none, some, arith, ◌==◌, eq_iff,
  is_some, ◌>>=◌, if◌then◌else◌,
}
use pi_piper.Prelude.Text.{is_empty}

-- A header's value is what `to_str().ok()` makes of it.
pub record HeaderMap (H : Type 0) : Type 0 where
  pub contains_key : H → String → Bool
  pub get : H → String → Option (Option String)
  pub contains_key_lem : (h : H) (k : String) → contains_key h k ≡ is_some (get h k)

unfoldable pub is_authorized : String → Option String → Bool
is_authorized expected_token none = false
is_authorized expected_token (some token) = token == expected_token

abbrev pub tailscale_login_header : String
tailscale_login_header = "tailscale-user-login"

abbrev pub tailscale_funnel_header : String
tailscale_funnel_header = "tailscale-funnel-request"

abbrev pub is_login : Option String → Bool
is_login none = false
is_login (some login) = not (is_empty login)

module _ {H : Type 0} ⦃map : HeaderMap H⦄ where
  unfoldable pub is_authorized_tailscale : H → Bool
  is_authorized_tailscale headers =
      if map.contains_key headers tailscale_funnel_header
      then false
      else is_login (map.get headers tailscale_login_header >>= λ value. value)
