-- ===== src/Water/Checkpoint.antt =====
-- src/water_control/checkpoint.py: a payload in an envelope with its digest, as bytes and back.
pub mod Envelope
use mncs_reference_studies.Common.{
  String, Bool, true, false, not, Option, none, some, ◌==◌, string_eq,
}
use mncs_reference_studies.Common.Result.{Result, ok, raise, ◌>>=◌, ◌>>◌, require}
use mncs_reference_studies.Dict.{lookup}
use mncs_reference_studies.Python.Json.{
  Json, Fields, text, object, no_fields, field, entries, LoadError, json_decode_error, other_error,
  Codec,
}

-- `CheckpointError` with its three messages, and an exception of `json.loads` that is not caught.
pub data CheckpointError : Type 0 where
  malformed : CheckpointError
  digest_mismatch : CheckpointError
  no_object : CheckpointError
  not_caught : CheckpointError

module _ {N : Type 0} (codec : Codec N) where
  abbrev pub digest_of : Json N → String
  digest_of payload = codec.sha256 (codec.canonical payload)

  abbrev pub envelope : Json N → Json N
  envelope payload =
      object (field "payload" payload (field "sha256" (text (digest_of payload)) no_fields))

  unfoldable pub encode_checkpoint : Json N → codec.Bytes
  encode_checkpoint payload = codec.canonical (envelope payload)

  -- `json.loads(data)` within the `try`
  abbrev pub loaded : Result LoadError (Json N) → Result CheckpointError (Json N)
  loaded (ok x) = ok x
  loaded (raise json_decode_error) = raise malformed
  loaded (raise other_error) = raise not_caught

  -- `envelope[key]`: a missing key raises, and so does a value that is no dictionary.
  abbrev pub required : Option (Json N) → Result CheckpointError (Json N)
  required none = raise malformed
  required (some x) = ok x

  abbrev pub envelope_fields : Json N → Fields N
  envelope_fields (object fs) = fs
  envelope_fields _ = no_fields

  abbrev pub is_digest : Json N → String → Bool
  is_digest (text s) actual = s == actual
  is_digest _ actual = false

  abbrev pub require_dict : Json N → Result CheckpointError (Fields N)
  require_dict (object fs) = ok fs
  require_dict _ = raise no_object

  unfoldable pub decode_checkpoint : codec.Bytes → Result CheckpointError (Fields N)
  decode_checkpoint bytes = do
    envelope ← loaded (codec.loads bytes)
    payload ← required (lookup "payload" (entries (envelope_fields envelope)))
    expected ← required (lookup "sha256" (entries (envelope_fields envelope)))
    require (is_digest expected (digest_of payload)) digest_mismatch
    require_dict payload
