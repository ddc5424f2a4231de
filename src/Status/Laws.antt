-- ===== src/Status/Laws.antt =====
-- src/registry.rs: when the status of a session counts as changed, and what an event changes.
use pi_piper.Prelude.{
  ◌≡◌, ◌↔◌, eq_refl, refl, ap, String, Bool, true, false, Option, none, some, arith, eq_iff,
}
use pi_piper.Session.{SessionStatus}
use pi_piper.Status.{option_eq, bool_eq, status_changed}

option_eq_sound : (a b : Option String) → option_eq a b ≡ true → a ≡ b
option_eq_sound none none h = refl
option_eq_sound none (some t) h = cc
option_eq_sound (some s) none h = cc
option_eq_sound (some s) (some t) h = ap some ((eq_iff s t).0 h)

bool_eq_sound : (a b : Bool) → bool_eq a b ≡ true → a ≡ b
bool_eq_sound true b h = cc
bool_eq_sound false true h = cc
bool_eq_sound false false h = refl

option_eq_refl : (a : Option String) → option_eq a a ≡ true
option_eq_refl none = refl
option_eq_refl (some s) = eq_refl s

bool_eq_refl : (a : Bool) → bool_eq a a ≡ true
bool_eq_refl true = refl
bool_eq_refl false = refl

-- No change of a status is reported exactly when streaming and preview are what they were.
pub status_unchanged_iff :
    (prev next : SessionStatus)
    → (status_changed prev next ≡ false)
      ↔ ((next.is_streaming ≡ prev.is_streaming) × (next.last_preview ≡ prev.last_preview))
unfolding status_changed
status_unchanged_iff prev next = (
  λ h. (
    bool_eq_sound next.is_streaming prev.is_streaming (ground (arith, h)),
    option_eq_sound next.last_preview prev.last_preview (ground (arith, h)),
  ),
  λ h. rw (h.0, h.1, bool_eq_refl prev.is_streaming, option_eq_refl prev.last_preview),
)
