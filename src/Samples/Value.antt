-- ===== src/Samples/Value.antt =====
-- A small type of JSON values. Its text of a string is the string itself, and of an object the text
-- of its first field; only some texts are read back.
use pi_piper.Prelude.{
  ℤ, String, ◌≡◌, refl, ap, Bool, Option, none, some, List, [], ◌∷◌, ◌==◌, if◌then◌else◌,
}
use pi_piper.Json.{Json, Fields, field}

mutual
  pub data Value : Type 0 where
    null : Value
    bool : Bool → Value
    int : ℤ → Value
    text : String → Value
    arr : Items → Value
    obj : Entries → Value

  pub data Items : Type 0 where
    nil : Items
    cons : Value → Items → Items

  pub data Entries : Type 0 where
    end : Entries
    entry : String → Value → Entries → Entries

abbrev to_items : List Value → Items
to_items [] = nil
to_items (v ∷ vs) = cons v (to_items vs)

abbrev from_items : Items → List Value
from_items nil = []
from_items (cons v vs) = v ∷ from_items vs

abbrev to_entries : Fields Value → Entries
to_entries [] = end
to_entries ((k, v) ∷ fs) = entry k v (to_entries fs)

abbrev find : String → Entries → Option Value
find k end = none
find k (entry j v es) = if j == k then some v else find k es

abbrev get : Value → String → Option Value
get (obj es) k = find k es
get _ k = none

abbrev as_str : Value → Option String
as_str (text s) = some s
as_str _ = none

abbrev as_array : Value → Option (List Value)
as_array (arr items) = some (from_items items)
as_array _ = none

abbrev print : Value → String
print (text s) = s
print (obj (entry k v es)) = k
print _ = "null"

-- The frames that the tests send.
abbrev pub register_frame : String → Value
register_frame id = obj (entry "type" (text "register") (entry "sessionId" (text id) end))

abbrev pub event_frame : String → Value
event_frame ty =
    obj (entry "type" (text "event") (entry "event" (obj (entry "type" (text ty) end)) end))

abbrev parse : String → Option Value
parse s =
    if s == "oops"
    then none
    else if s == "register a"
    then some (register_frame "a")
    else if s == "register b"
    then some (register_frame "b")
    else if s == "agent starts"
    then some (event_frame "agent_start")
    else some (text s)

pub get-to_entries : (fs : Fields Value) (k : String) → find k (to_entries fs) ≡ field k fs
get-to_entries [] k = refl
get-to_entries ((j, v) ∷ fs) k = ap (λ o. if j == k then some v else o) (get-to_entries fs k)

pub from-to_items : (vs : List Value) → from_items (to_items vs) ≡ vs
from-to_items [] = refl
from-to_items (v ∷ vs) = ap (◌∷◌ v) (from-to_items vs)

pub as_array-arr : (vs : List Value) → as_array (arr (to_items vs)) ≡ some vs
as_array-arr vs = ap some (from-to_items vs)

pub serialize_value : (v : Value) → ◌≡◌ {A = Option String} (some (print v)) (some (print v))
serialize_value v = refl

pub as_str-text : (s : String) → as_str (text s) ≡ some s
as_str-text s = refl

instance abbrev pub value_json : Json Value
value_json = record {
  get = get;
  as_str = as_str;
  as_array = as_array;
  null = null;
  bool = bool;
  int = int;
  string = text;
  array = λ vs. arr (to_items vs);
  object = λ fs. obj (to_entries fs);
  to_string = print;
  serialize = λ v. some (print v);
  from_str = parse;
  get-object = get-to_entries;
  as_str-string = as_str-text;
  as_array-array = as_array-arr;
  serialize_lem = serialize_value;
}
