-- ===== src/Ravel/Seeds.antt =====
-- `_mix64`, `_derive_validation_seed` and the seeds of the datasets.
pub mod Frames
use Prim.Native.Nat.{bit_xor}
use mncs_reference_studies.Common.{
  ℕ, Bool, true, ◌&&◌, not, ◌+◌, ◌*◌, ◌/◌, ◌%◌, ◌^◌, String, List, [], ◌∷◌, ◌++◌, leb, take,
  if◌then◌else◌,
}
use mncs_reference_studies.Common.Result.{ok, raise}
use mncs_reference_studies.Python.Hex.{code_points, big_endian, from_big_endian, encode_utf8}
use mncs_reference_studies.Ravel.Values.{Outcome, overflow_error, value_error}

-- `value ^ (value >> shift)`
abbrev pub fold_shift : ℕ → ℕ → ℕ
fold_shift value shift = bit_xor value (value / 2 ^ shift)

-- `(value * factor) & UINT64_MASK`
abbrev pub times64 : ℕ → ℕ → ℕ
times64 value factor = value * factor % 2 ^ 64

-- `_mix64`
unfoldable pub mix64 : ℕ → ℕ
mix64 value =
    let first = fold_shift (value % 2 ^ 64) 30 in
    let second = fold_shift (times64 first 0xbf58_476d_1ce4_e5b9) 27 in
    fold_shift (times64 second 0x94d0_49bb_1331_11eb) 31 % 2 ^ 64

-- `DATASET_SEED_XORS`
abbrev pub dataset_seed_xors : List (String × ℕ)
dataset_seed_xors =
    ("base_training", 0x4241_5345_5452_4149)
    ∷ ("base_holdout", 0x4241_5345_484f_4c44)
    ∷ ("drift_adaptation_training", 0x4144_4150_5454_524e)
    ∷ ("drift_holdout", 0x4452_4946_5448_4f4c)
    ∷ ("original_task_retention_holdout", 0x5245_5445_4e54_494f)
    ∷ ("planning_cases", 0x504c_414e_4341_5345)
    ∷ []

-- `expected_dataset_seeds`
unfoldable pub dataset_seeds_from : List (String × ℕ) → ℕ → List (String × ℕ)
dataset_seeds_from [] trial_seed = []
dataset_seeds_from ((name, xor_value) ∷ rest) trial_seed =
    (name, mix64 (bit_xor trial_seed xor_value)) ∷ dataset_seeds_from rest trial_seed

-- The framed bytes of `_derive_validation_seed`, for a regime that `encode` does not refuse.
unfoldable pub framed_seed : ℕ → String → ℕ → List ℕ
framed_seed root regime index =
    big_endian 8 root
    ++ encode_utf8 (code_points "validation")
    ++ (0 ∷ [])
    ++ encode_utf8 (code_points regime)
    ++ (0 ∷ [])
    ++ big_endian 4 index

-- UTF-8 has no surrogates: `encode` raises a UnicodeEncodeError on them.
unfoldable pub encodable : List ℕ → Bool
encodable [] = true
encodable (c ∷ cs) = not (leb 0xd800 c && leb c 0xdfff) && encodable cs

-- `_derive_validation_seed`, over the digest of `hashlib.sha256`. `to_bytes` raises on a number
-- that does not fit.
unfoldable pub derive_validation_seed : (List ℕ → List ℕ) → ℕ → String → ℕ → Outcome ℕ
derive_validation_seed sha256 root regime index =
    if leb (2 ^ 64) root
    then raise overflow_error
    else if not (encodable (code_points regime))
    then raise value_error
    else if leb (2 ^ 32) index
    then raise overflow_error
    else ok (from_big_endian 0 (take 8 (sha256 (framed_seed root regime index))))
