-- ===== src/Dict/Sizes.antt =====
-- The number of keys after each operation on a dictionary.
use mncs_reference_studies.Common.{◌+◌, ◌≡◌, refl, none, some, List, [], ◌∷◌, Eq, arith, length}
use mncs_reference_studies.Dict.Defs.{lookup, insert, delete, adjust}

module _ {ℓ κ} {K : Type ℓ} {V : Type κ} ⦃e : Eq K⦄ where
  pub length-insert_new :
      (k : K) (v : V) (m : List (K × V)) → lookup k m ≡ none → length (insert k v m) ≡ length m + 1
  unfolding lookup insert
  length-insert_new k v [] h = refl
  length-insert_new k v ((i, w) ∷ m) h = ground (arith, length-insert_new k v m)

  pub length-delete :
      (k : K) (m : List (K × V)) (v : V) → lookup k m ≡ some v → length (delete k m) + 1 ≡ length m
  unfolding lookup delete
  length-delete k [] v h = cc
  length-delete k ((i, w) ∷ m) v h = ground (arith, length-delete k m v)

  pub length-adjust : (k : K) (f : V → V) (m : List (K × V)) → length (adjust k f m) ≡ length m
  unfolding adjust
  length-adjust k f [] = refl
  length-adjust k f ((i, w) ∷ m) = ground (arith, length-adjust k f m)
