-- ===== src/Ravel/Values/Checked.antt =====
-- What a value is, once a `require_…` function has let it pass.
use mncs_reference_studies.Common.{
  ℕ, String, Bool, true, false, ◌&&◌, ◌≡◌, ◌↔◌, refl, ap, subst, ◌∙◌, inl, inr, Bool-cases, some,
  List, [], ◌∷◌, arith, ◌==◌, nat_eq, string_eq,
}
use mncs_reference_studies.Common.Int.{ℤ, pos, negsuc}
use mncs_reference_studies.Common.Result.{ok, >>=-eq-ok, ok_inj}
use mncs_reference_studies.Common.Sorting.{All}
use mncs_reference_studies.Common.Sets.{contains}
use mncs_reference_studies.Common.Text.{◌<>◌}
use mncs_reference_studies.Dict.{lookup, keys}
use mncs_reference_studies.Python.Json.{Json, null, text, flag, int, number, array, object, entries}
use mncs_reference_studies.Python.Hex.{code_points}
use mncs_reference_studies.Ravel.Values.{
  Object, reject_if, get, require_object, all_in, same_set, require_exact_keys, require_int,
  require_natural, is_empty_text, require_string, is_hex_of, validate_hex, require_naturals,
  require_hexes, int_at,
}

pub reject_if-ok : (b : Bool) (m : String) → (reject_if b m ≡ ok tt) ↔ (b ≡ false)
reject_if-ok true m = (λ h. cc, λ h. cc)
reject_if-ok false m = (λ h. refl, λ h. refl)

require_natural_pos :
    (N : Type 0) (m : ℕ) (c : String) → require_natural {N = N} (int (pos m)) c ≡ ok (pos m)
unfolding require_int
require_natural_pos N m c = ground arith

hex-validate :
    (N : Type 0) (s : String) (c : String) (digits : ℕ)
    → is_empty_text s ≡ false
    → is_hex_of digits (code_points s) ≡ true
    → validate_hex {N = N} (text s) c digits ≡ ok s
unfolding validate_hex require_string
hex-validate N s c digits some_text hex = ground arith

-- A property of all names holds of each of them.
pub at_name :
    (P : String → Type 0) (k : String) (ks : List String) → contains k ks ≡ true → All P ks → P k
unfolding contains
at_name P k [] h all = absurd (cc)
at_name P k (j ∷ ks) h all = elim (Bool-cases (j == k)) [
  | inl same ↦ subst P ((string_eq.beq_iff j k).0 same) all.0
  | inr other ↦ at_name P k ks (rw other at h) all.1
]

and_true : (a b : Bool) → (a && b) ≡ true → (a ≡ true) × (b ≡ true)
and_true a b e = ground arith

pub all_in-All :
    (names others : List String)
    → all_in names others ≡ true
    → All (λ name. contains name others ≡ true) names
unfolding all_in
all_in-All [] others h = tt
all_in-All (k ∷ ks) others h =
    let (first, rest) = and_true (contains k others) _ h in (first, all_in-All ks others rest)

pub at_names :
    (P : String → Type 0) (some_of ks : List String)
    → all_in some_of ks ≡ true
    → All P ks
    → All P some_of
unfolding all_in
at_names P [] ks h all = tt
at_names P (k ∷ rest) ks h all = (
  at_name P k ks (and_true (contains k ks) _ h).0 all,
  at_names P rest ks (and_true (contains k ks) _ h).1 all,
)

module _ {N : Type 0} where
  -- A key whose value is a natural number.
  abbrev pub HasNatural : Object N → String → Type 0
  HasNatural fields key = (n : ℕ) × (lookup key fields ≡ some (int (pos n)))

  -- A key whose value is a text of so many hexadecimal digits.
  abbrev pub HasHex : Object N → ℕ → String → Type 0
  HasHex fields digits key =
      (s : String) × (lookup key fields ≡ some (text s))
      × (is_empty_text s ≡ false)
      × (is_hex_of digits (code_points s) ≡ true)

  pub require_object-ok :
      (v : Json N) (c : String) (o : Object N)
      → require_object v c ≡ ok o
      → (fs : _) × (v ≡ object fs) × (entries fs ≡ o)
  unfolding require_object
  require_object-ok (object fs) c o h = (fs, refl, ok_inj h)
  require_object-ok null c o h = absurd (cc)
  require_object-ok (text s) c o h = absurd (cc)
  require_object-ok (flag b) c o h = absurd (cc)
  require_object-ok (int n) c o h = absurd (cc)
  require_object-ok (number x) c o h = absurd (cc)
  require_object-ok (array xs) c o h = absurd (cc)

  pub get-ok : (k : String) (o : Object N) (x : Json N) → (get k o ≡ ok x) ↔ (lookup k o ≡ some x)
  unfolding get
  get-ok k o x = ground arith

  require_natural-ok :
      (v : Json N) (c : String) (n : ℤ) → require_natural v c ≡ ok n → (m : ℕ) × (v ≡ int (pos m))
  unfolding require_int
  require_natural-ok (int (pos m)) c n h = (m, refl)
  require_natural-ok (int (negsuc m)) c n h = absurd (ground arith)
  require_natural-ok null c n h = absurd (cc)
  require_natural-ok (text s) c n h = absurd (cc)
  require_natural-ok (flag b) c n h = absurd (cc)
  require_natural-ok (number x) c n h = absurd (cc)
  require_natural-ok (array xs) c n h = absurd (cc)
  require_natural-ok (object fs) c n h = absurd (cc)

  pub require_naturals-HasNatural :
      (o : Object N) (ks : List String) (c : String)
      → require_naturals o ks c ≡ ok tt
      → All (HasNatural o) ks
  unfolding require_naturals
  require_naturals-HasNatural o [] c h = tt
  require_naturals-HasNatural o (k ∷ ks) c h =
      let (x, e, h') = >>=-eq-ok (get k o) _ h in
      let (n, e', h'') = >>=-eq-ok (require_natural x (c <> "." <> k)) _ h' in
      let (m, same) = require_natural-ok x (c <> "." <> k) n e' in
      ((m, (get-ok k o x).0 e ∙ ap some same), require_naturals-HasNatural o ks c h'')

  pub HasNatural-require_naturals :
      (o : Object N) (ks : List String) (c : String)
      → All (HasNatural o) ks
      → require_naturals o ks c ≡ ok tt
  unfolding require_naturals
  HasNatural-require_naturals o [] c h = refl
  HasNatural-require_naturals o (k ∷ ks) c ((m, e), rest) =
      rw ((get-ok k o (int (pos m))).1 e, require_natural_pos N m (c <> "." <> k))
        (HasNatural-require_naturals o ks c rest)

  pub int_at-natural :
      (k : String) (o : Object N) (n : ℕ)
      → lookup k o ≡ some (int (pos n))
      → int_at k o ≡ ok (pos n)
  unfolding int_at
  int_at-natural k o n e = rw ((get-ok k o (int (pos n))).1 e) refl

  pub validate_hex-ok :
      (v : Json N) (c : String) (digits : ℕ) (s : String)
      → validate_hex v c digits ≡ ok s
      → (v ≡ text s) × (is_empty_text s ≡ false) × (is_hex_of digits (code_points s) ≡ true)
  unfolding validate_hex require_string
  validate_hex-ok (text t) c digits s h = ground arith
  validate_hex-ok null c digits s h = absurd (cc)
  validate_hex-ok (flag b) c digits s h = absurd (cc)
  validate_hex-ok (int n) c digits s h = absurd (cc)
  validate_hex-ok (number x) c digits s h = absurd (cc)
  validate_hex-ok (array xs) c digits s h = absurd (cc)
  validate_hex-ok (object fs) c digits s h = absurd (cc)

  pub require_hexes-HasHex :
      (o : Object N) (ks : List String) (c : String) (digits : ℕ)
      → require_hexes o ks c digits ≡ ok tt
      → All (HasHex o digits) ks
  unfolding require_hexes
  require_hexes-HasHex o [] c digits h = tt
  require_hexes-HasHex o (k ∷ ks) c digits h =
      let (x, e, h') = >>=-eq-ok (get k o) _ h in
      let (s, e', h'') = >>=-eq-ok (validate_hex x (c <> "." <> k) digits) _ h' in
      let (same, some_text, hex) = validate_hex-ok x (c <> "." <> k) digits s e' in
      (
        (s, (get-ok k o x).0 e ∙ ap some same, some_text, hex),
        require_hexes-HasHex o ks c digits h'',
      )

  pub HasHex-require_hexes :
      (o : Object N) (ks : List String) (c : String) (digits : ℕ)
      → All (HasHex o digits) ks
      → require_hexes o ks c digits ≡ ok tt
  unfolding require_hexes
  HasHex-require_hexes o [] c digits h = refl
  HasHex-require_hexes o (k ∷ ks) c digits ((s, e, some_text, hex), rest) =
      rw ((get-ok k o (text s)).1 e, hex-validate N s (c <> "." <> k) digits some_text hex)
        (HasHex-require_hexes o ks c digits rest)

  pub require_exact_keys-ok :
      (o : Object N) (names : List String) (c : String)
      → (require_exact_keys o names c ≡ ok tt) ↔ (same_set (keys o) names ≡ true)
  unfolding require_exact_keys
  require_exact_keys-ok o names c = ground arith
