-- ===== src/Registry/Map.antt =====
-- `HashMap<String, _>` as an association list; the order of iteration of the source is not specified.
use pi_piper.Prelude.{
  String, ◌≡◌, refl, Option, none, some, List, [], ◌∷◌, arith, ◌==◌, eq_iff, if◌then◌else◌,
}

module _ {ℓ} {A : Type ℓ} where
  unfoldable pub lookup : String → List (String × A) → Option A
  lookup id [] = none
  lookup id (entry ∷ rest) = if entry.0 == id then some entry.1 else lookup id rest

  -- The value of an id that is there is replaced, and a new id is put last.
  unfoldable pub insert : String → A → List (String × A) → List (String × A)
  insert id value [] = (id, value) ∷ []
  insert id value (entry ∷ rest) =
      if entry.0 == id then (id, value) ∷ rest else entry ∷ insert id value rest

  unfoldable pub remove : String → List (String × A) → List (String × A)
  remove id [] = []
  remove id (entry ∷ rest) = if entry.0 == id then rest else entry ∷ remove id rest

  -- `values().next()`
  abbrev pub first_value : List (String × A) → Option A
  first_value [] = none
  first_value ((k, v) ∷ m) = some v

  -- No two entries have one key.
  abbrev pub IsDistinct : List (String × A) → Type ℓ
  IsDistinct [] = Unit
  IsDistinct ((k, v) ∷ m) = (lookup k m ≡ none) × IsDistinct m

  -- An insertion is seen under its id alone.
  pub lookup-insert :
      (id other : String) (value : A) (entries : List (String × A))
      → lookup other (insert id value entries)
        ≡ (if id == other then some value else lookup other entries)
  unfolding lookup insert
  lookup-insert id other value [] = refl
  lookup-insert id other value (entry ∷ rest) =
      let later = lookup-insert id other value rest in
      ground (arith, later, eq_iff entry.0 id, eq_iff entry.0 other, eq_iff id other)

  pub lookup-remove :
      (k j : String) (m : List (String × A))
      → IsDistinct m
      → lookup j (remove k m) ≡ (if k == j then none else lookup j m)
  unfolding lookup remove
  lookup-remove k j [] d = ground arith
  lookup-remove k j ((i, w) ∷ m) d =
      ground (arith, eq_iff k j, eq_iff i k, eq_iff i j, lookup-remove k j m d.1)

  pub insert-IsDistinct :
      (k : String) (v : A) (m : List (String × A)) → IsDistinct m → IsDistinct (insert k v m)
  unfolding insert lookup
  insert-IsDistinct k v [] d = (refl, tt)
  insert-IsDistinct k v ((i, w) ∷ m) d =
      ground (arith, eq_iff i k, eq_iff k i, insert-IsDistinct k v m d.1, lookup-insert k i v m)

  pub remove-IsDistinct :
      (k : String) (m : List (String × A)) → IsDistinct m → IsDistinct (remove k m)
  unfolding remove
  remove-IsDistinct k [] d = tt
  remove-IsDistinct k ((i, w) ∷ m) d =
      ground (arith, eq_iff i k, eq_iff k i, remove-IsDistinct k m d.1, lookup-remove k i m d.1)
