-- ===== src/Server/Auth/Decision.antt =====
-- src/server/auth.rs: the conditions of the two checks.
use pi_piper.Prelude.{
  String, ◌≡◌, ◌≢◌, ◌↔◌, refl, true, false, Option, none, some, arith, eq_iff, ap, ◌∙◌, is_some,
  Option-cases, inl, inr, ◌>>=◌,
}
use pi_piper.Prelude.Text.{is_empty}
use pi_piper.Server.Auth.{
  HeaderMap, is_authorized, is_login, is_authorized_tailscale, tailscale_funnel_header,
  tailscale_login_header,
}

-- The agent token is accepted exactly when it is presented and is the expected one.
is_authorized_iff :
    (expected : String) (presented : Option String)
    → (is_authorized expected presented ≡ true) ↔ (presented ≡ some expected)
unfolding is_authorized
is_authorized_iff expected none = (λ h. cc, λ h. cc)
is_authorized_iff expected (some token) =
    (λ h. ap some ((eq_iff token expected).0 h), λ h. (eq_iff token expected).1 (ground arith))

is_login_sound :
    (o : Option (Option String))
    → is_login (o >>= λ value. value) ≡ true
    → (login : String) × (o ≡ some (some login)) × (login ≢ "")
is_login_sound none h = cc
is_login_sound (some none) h = cc
is_login_sound (some (some login)) h = (login, refl, λ e. cc (h, ap is_empty e))

is_login_complete : (login : String) → login ≢ "" → is_login (some login) ≡ true
is_login_complete String.[] h = absurd (h refl)
is_login_complete (String.◌∷◌ c s) h = refl

module _ {H : Type 0} ⦃headers : HeaderMap H⦄ where
  -- A phone's request is authorized exactly when it carries no Funnel header and a login header
  -- whose value is a text that is not empty.
  pub is_authorized_tailscale_iff :
      (request : H)
      → (is_authorized_tailscale request ≡ true) ↔ (
          (headers.get request tailscale_funnel_header ≡ none)
          × ((login : String) × (headers.get request tailscale_login_header ≡ some (some login))
              × (login ≢ "")))
  unfolding is_authorized_tailscale
  is_authorized_tailscale_iff request =
      elim (Option-cases (headers.get request tailscale_funnel_header)) [
        | inl e ↦
            let clear : headers.contains_key request tailscale_funnel_header ≡ false =
              headers.contains_key_lem request tailscale_funnel_header ∙ ap is_some e in
            rw clear (
              λ h. (e, is_login_sound (headers.get request tailscale_login_header) h),
              λ h. let (login, f, full) = h.1 in rw f (is_login_complete login full),
            )
        | inr (value, e) ↦
            let funnel : headers.contains_key request tailscale_funnel_header ≡ true =
              headers.contains_key_lem request tailscale_funnel_header ∙ ap is_some e in
            rw funnel (λ h. cc, λ h. cc (h.0, e))
      ]
