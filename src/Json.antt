-- ===== src/Json.antt =====
-- `serde_json::Value` as the program uses it. The crate is not part of the repository: its type of
-- values and its operations are a parameter, with the documented laws that the hub relies on.
use pi_piper.Prelude.{ℤ, String, ◌≡◌, Bool, Option, none, some, List, [], ◌∷◌, ◌==◌, if◌then◌else◌}

-- The fields of a `json!` object or of a serialised struct, in order.
abbrev pub Fields {ℓ} : Type ℓ → Type ℓ
Fields V = List (String × V)

abbrev pub field {ℓ} : {V : Type ℓ} → String → Fields V → Option V
field k [] = none
field k ((j, v) ∷ fields) = if j == k then some v else field k fields

pub record Json (V : Type 0) : Type 0 where
  -- `Value::get(key)`, `as_str`, `as_array`
  pub get : V → String → Option V
  pub as_str : V → Option String
  pub as_array : V → Option (List V)
  -- what `json!` and `Serialize` build
  pub null : V
  pub bool : Bool → V
  pub int : ℤ → V
  pub string : String → V
  pub array : List V → V
  pub object : Fields V → V
  -- `Display`, `serde_json::to_string` and `from_str`; an error is only passed on or logged
  pub to_string : V → String
  pub serialize : V → Option String
  pub from_str : String → Option V
  -- laws
  pub get-object : (fields : Fields V) (k : String) → get (object fields) k ≡ field k fields
  pub as_str-string : (s : String) → as_str (string s) ≡ some s
  pub as_array-array : (vs : List V) → as_array (array vs) ≡ some vs
  pub serialize_lem : (v : V) → serialize v ≡ some (to_string v)
