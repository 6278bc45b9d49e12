-- ===== src/Ravel/Seeds/Frames.antt =====
-- The frames that the validation seeds are digests of, and the seeds as words of 64 bits.
use mncs_reference_studies.Common.{
  ℕ, zero, suc, ◌+◌, ◌*◌, ◌/◌, ◌%◌, ◌^◌, ◌<◌, ◌≤◌, true, String, ◌≡◌, ◌↔◌, refl, sym, ap, ◌∙◌, List,
  [], ◌∷◌, ◌++◌, length, length-append, length-take, take, arith, subst,
}
use mncs_reference_studies.Common.Result.{ok}
use mncs_reference_studies.Common.Sorting.{All}
use mncs_reference_studies.Python.Hex.{code_points, big_endian, from_big_endian, encode_utf8}
use mncs_reference_studies.Ravel.Seeds.{framed_seed, encodable, derive_validation_seed}

length-big_endian : (width n : ℕ) → length (big_endian width n) ≡ width
unfolding big_endian
length-big_endian zero n = refl
length-big_endian (suc width) n = omega (
  arith,
  length-append (big_endian width (n / 256)) (n % 256 ∷ []),
  length-big_endian width (n / 256),
)

from_big_endian-append :
    (a : ℕ) (xs ys : List ℕ)
    → from_big_endian a (xs ++ ys) ≡ from_big_endian (from_big_endian a xs) ys
unfolding from_big_endian
from_big_endian-append a [] ys = refl
from_big_endian-append a (x ∷ xs) ys = from_big_endian-append (a * 256 + x) xs ys

-- A number that fits its bytes is read back from them.
pub from_big_endian-big_endian :
    (width n : ℕ) → n < 256 ^ width → from_big_endian 0 (big_endian width n) ≡ n
unfolding big_endian from_big_endian
from_big_endian-big_endian zero n h = omega (arith, h)
from_big_endian-big_endian (suc width) n h =
    let rest = from_big_endian-big_endian width (n / 256) (omega (arith, h)) in
    from_big_endian-append 0 (big_endian width (n / 256)) (n % 256 ∷ []) ∙ omega (arith, rest)

append_cancel :
    (xs xs' ys ys' : List ℕ)
    → length xs ≡ length xs'
    → xs ++ ys ≡ xs' ++ ys'
    → (xs ≡ xs') × (ys ≡ ys')
append_cancel [] [] ys ys' n h = (refl, h)
append_cancel [] (x ∷ xs') ys ys' n h = absurd (omega arith)
append_cancel (x ∷ xs) [] ys ys' n h = absurd (omega arith)
append_cancel (x ∷ xs) (x' ∷ xs') ys ys' n h =
    let tails : xs ++ ys ≡ xs' ++ ys' = cc in
    let heads : x ≡ x' = cc in
    let (e, e') = append_cancel xs xs' ys ys' (omega arith) tails in (cc, e')

append_cancel_right :
    (xs xs' ys ys' : List ℕ)
    → length ys ≡ length ys'
    → xs ++ ys ≡ xs' ++ ys'
    → (xs ≡ xs') × (ys ≡ ys')
append_cancel_right xs xs' ys ys' n h =
    append_cancel xs xs' ys ys'
      (omega (arith, n, length-append xs ys, length-append xs' ys', ap length h)) h

append_assoc : (xs ys zs : List ℕ) → (xs ++ ys) ++ zs ≡ xs ++ (ys ++ zs)
append_assoc [] ys zs = refl
append_assoc (x ∷ xs) ys zs = ap (λ rest. x ∷ rest) (append_assoc xs ys zs)

-- Trials with the same frame have the same root seed, the same index and regimes of the same
-- bytes, if the root seed and the index fit their words.
pub framed_seed-inj :
    (root root' index index' : ℕ) (regime regime' : String)
    → root < 2 ^ 64
    → root' < 2 ^ 64
    → index < 2 ^ 32
    → index' < 2 ^ 32
    → framed_seed root regime index ≡ framed_seed root' regime' index'
    → (root ≡ root')
      × (encode_utf8 (code_points regime) ≡ encode_utf8 (code_points regime'))
      × (index ≡ index')
unfolding framed_seed
framed_seed-inj root root' index index' regime regime' r r' i i' h =
    let label = encode_utf8 (code_points "validation") in
    let head : ℕ → List ℕ = λ n. big_endian 8 n ++ label ++ (0 ∷ []) in
    let name : String → List ℕ = λ t. encode_utf8 (code_points t) in
    let (h1, e') =
      append_cancel_right (head root ++ name regime ++ (0 ∷ []))
        (head root' ++ name regime' ++ (0 ∷ [])) (big_endian 4 index) (big_endian 4 index')
        (length-big_endian 4 index ∙ sym (length-big_endian 4 index')) h in
    let (h2, _) =
      append_cancel_right (head root ++ name regime) (head root' ++ name regime') (0 ∷ []) (0 ∷ [])
        refl h1 in
    let (h3, names) =
      append_cancel (head root) (head root') (name regime) (name regime')
        (omega (
          arith,
          length-append (big_endian 8 root ++ label) (0 ∷ []),
          length-append (big_endian 8 root) label,
          length-append (big_endian 8 root' ++ label) (0 ∷ []),
          length-append (big_endian 8 root') label,
          length-big_endian 8 root,
          length-big_endian 8 root',
        ))
        h2 in
    let (e, _) =
      append_cancel (big_endian 8 root) (big_endian 8 root') (label ++ (0 ∷ [])) (label ++ (0 ∷ []))
        (length-big_endian 8 root ∙ sym (length-big_endian 8 root'))
        (sym (append_assoc (big_endian 8 root) label (0 ∷ []))
          ∙ h3
          ∙ append_assoc (big_endian 8 root') label (0 ∷ [])) in
    (
      sym (from_big_endian-big_endian 8 root (omega (arith, r)))
          ∙ ap (from_big_endian 0) e
          ∙ from_big_endian-big_endian 8 root' (omega (arith, r')),
      names,
      sym (from_big_endian-big_endian 4 index (omega (arith, i)))
          ∙ ap (from_big_endian 0) e'
          ∙ from_big_endian-big_endian 4 index' (omega (arith, i')),
    )

-- A byte.
abbrev pub IsByte : ℕ → Type 0
IsByte b = b < 256

from_big_endian-lt :
    (k n : ℕ) (bs : List ℕ)
    → n < 256 ^ k
    → All IsByte bs
    → from_big_endian n bs < 256 ^ (k + length bs)
unfolding from_big_endian
from_big_endian-lt k n [] h bytes = subst (λ j. n < 256 ^ j) (omega arith) h
from_big_endian-lt k n (b ∷ bs) h (small, rest) =
    subst (λ j. from_big_endian (n * 256 + b) bs < 256 ^ j) (omega arith)
      (from_big_endian-lt (suc k) (n * 256 + b) bs (omega (arith, h, small)) rest)

take-All : (n : ℕ) (bs : List ℕ) → All IsByte bs → All IsByte (take n bs)
take-All zero bs h = tt
take-All (suc n) [] h = tt
take-All (suc n) (b ∷ bs) (h, rest) = (h, take-All n bs rest)

-- What SHA-256 promises: a digest is 32 bytes.
abbrev pub IsDigest : (List ℕ → List ℕ) → Type 0
IsDigest sha256 = (bs : List ℕ) → All IsByte (sha256 bs) × (length (sha256 bs) ≡ 32)

-- A code point that UTF-8 encodes: no surrogate.
abbrev pub IsScalar : ℕ → Type 0
IsScalar c = ¬ ((0xd800 ≤ c) × (c ≤ 0xdfff))

encodable_iff : (cs : List ℕ) → (encodable cs ≡ true) ↔ All IsScalar cs
unfolding encodable
encodable_iff [] = (λ h. tt, λ h. refl)
encodable_iff (c ∷ cs) = ground (arith, encodable_iff cs)

-- Over a digest of 32 bytes, a validation seed is derived just when the root seed and the index fit
-- their words of 64 and 32 bits and the regime has no surrogate, and it is itself a word of 64 bits.
pub derive_validation_seed-lt :
    (sha256 : List ℕ → List ℕ) (root index : ℕ) (regime : String)
    → IsDigest sha256
    → (((root < 2 ^ 64) × (index < 2 ^ 32) × All IsScalar (code_points regime))
        ↔ ((seed : ℕ) × (derive_validation_seed sha256 root regime index ≡ ok seed)))
      × ((seed : ℕ) → derive_validation_seed sha256 root regime index ≡ ok seed → seed < 2 ^ 64)
unfolding derive_validation_seed
derive_validation_seed-lt sha256 root index regime digest =
    let scalars = encodable_iff (code_points regime) in
    let frame = framed_seed root regime index in
    let word : ℕ = from_big_endian 0 (take 8 (sha256 frame)) in
    let bound : word < 256 ^ (0 + length (take 8 (sha256 frame))) =
      from_big_endian-lt 0 0 (take 8 (sha256 frame)) (omega arith)
        (take-All 8 (sha256 frame) (digest frame).0) in
    let eight : 0 + length (take 8 (sha256 frame)) ≡ 8 =
      omega (arith, length-take 8 (sha256 frame), (digest frame).1) in
    let fits : word < 2 ^ 64 = subst (λ j. word < 256 ^ j) eight bound in
    (
      ((λ h. (word, ground (arith, h.0, h.1, scalars.1 h.2))), λ h. ground (arith, h.1, scalars)),
      λ seed h. ground (arith, h, fits),
    )
