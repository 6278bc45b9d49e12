-- ===== src/Dict/Defs.antt =====
-- Python's `dict` as an association list in insertion order: `get`, assignment, `del`, `values`.
use mncs_reference_studies.Common.{◌≡◌, Option, none, some, List, [], ◌∷◌, Eq, ◌==◌, if◌then◌else◌}

module _ {ℓ κ} {K : Type ℓ} {V : Type κ} where
  -- `d.values()` and `d.keys()`
  unfoldable pub values : List (K × V) → List V
  values [] = []
  values ((k, v) ∷ m) = v ∷ values m

  unfoldable pub keys : List (K × V) → List K
  keys [] = []
  keys ((k, v) ∷ m) = k ∷ keys m

module _ {ℓ κ} {K : Type ℓ} {V : Type κ} ⦃e : Eq K⦄ where
  -- `d.get(k)`
  unfoldable pub lookup : K → List (K × V) → Option V
  lookup k [] = none
  lookup k ((key, v) ∷ rest) = if key == k then some v else lookup k rest

  -- `d[k] = v`: a known key keeps its place, a new one goes to the end.
  unfoldable pub insert : K → V → List (K × V) → List (K × V)
  insert k v [] = (k, v) ∷ []
  insert k v ((key, w) ∷ rest) = if key == k then (k, v) ∷ rest else (key, w) ∷ insert k v rest

  -- `del d[k]`, for a key that is there.
  unfoldable pub delete : K → List (K × V) → List (K × V)
  delete k [] = []
  delete k ((key, w) ∷ rest) = if key == k then rest else (key, w) ∷ delete k rest

  -- A change of the value under a key, in place.
  unfoldable pub adjust : K → (V → V) → List (K × V) → List (K × V)
  adjust k f [] = []
  adjust k f ((key, w) ∷ rest) = if key == k then (key, f w) ∷ rest else (key, w) ∷ adjust k f rest

  -- No key stands twice.
  abbrev pub Distinct : List (K × V) → Type κ
  Distinct [] = Unit
  Distinct ((k, v) ∷ rest) = (lookup k rest ≡ none) × Distinct rest
