-- ===== src/Water/Checkpoint/Envelope.antt =====
-- What a checkpoint keeps: the round trip of a payload, and what `decode_checkpoint` accepts.
use mncs_reference_studies.Common.{
  String, ◌≡◌, ◌↔◌, refl, sym, ap, ◌∙◌, Option, none, some, string_eq, arith,
}
use mncs_reference_studies.Common.Result.{Result, ok, raise, require, >>=-eq-ok, ok_inj}
use mncs_reference_studies.Dict.{lookup}
use mncs_reference_studies.Python.Json.{
  Json, Fields, null, text, flag, int, number, array, object, no_fields, field, entries, LoadError,
  json_decode_error, other_error, Codec,
}
use mncs_reference_studies.Water.Checkpoint.{
  digest_mismatch, digest_of, envelope, encode_checkpoint, required, envelope_fields, is_digest,
  require_dict, decode_checkpoint, loaded,
}
use mncs_reference_studies.Python.Sorted.{le_points, put_key, sort_keys, sort_fields}

module _ {N : Type 0} where
  -- What `json` promises of a value that it can write and read back: with sorted keys it is read as
  -- the value with its keys in order, and that value is written as the same bytes.
  pub record IsWritten (codec : Codec N) (x : Json N) : Type 0 where
    pub reads : codec.loads (codec.canonical x) ≡ ok (sort_keys x)
    pub sorts : codec.canonical (sort_keys x) ≡ codec.canonical x

  accepted :
      (codec : Codec N) (es gs : Fields N) (digest : String) (bytes : codec.Bytes)
      → codec.loads bytes ≡ ok (object es)
      → lookup "payload" (entries es) ≡ some (object gs)
      → lookup "sha256" (entries es) ≡ some (text digest)
      → digest ≡ digest_of codec (object gs)
      → decode_checkpoint codec bytes ≡ ok gs
  unfolding decode_checkpoint
  accepted codec es gs digest bytes read at_payload at_digest same =
      rw
        (
          read,
          at_payload,
          at_digest,
          (string_eq.beq_iff digest (digest_of codec (object gs))).1 same,
        )
        refl

  -- A dictionary whose checkpoint `json` can write and read back is decoded from the bytes of its
  -- checkpoint, with the keys in order.
  pub decode_checkpoint-encode_checkpoint :
      (codec : Codec N) (fs : Fields N)
      → IsWritten codec (object fs)
      → IsWritten codec (envelope codec (object fs))
      → decode_checkpoint codec (encode_checkpoint codec (object fs)) ≡ ok (sort_fields fs)
  unfolding encode_checkpoint lookup sort_keys put_key le_points
  decode_checkpoint-encode_checkpoint codec fs payload whole =
      accepted codec
        (sort_fields (
          field "payload" (object fs)
            (field "sha256" (text (digest_of codec (object fs))) no_fields)))
        (sort_fields fs) (digest_of codec (object fs)) _ whole.reads refl refl
        (ap codec.sha256 (sym payload.sorts))

  -- The dictionary read from bytes that decode: an object under `payload`, beside its own digest.
  pub record IsEnvelope (codec : Codec N) (bytes : codec.Bytes) (gs : Fields N) : Type 0 where
    pub es : Fields N
    pub is_loaded : codec.loads bytes ≡ ok (object es)
    pub payload : lookup "payload" (entries es) ≡ some (object gs)
    pub digest : lookup "sha256" (entries es) ≡ some (text (digest_of codec (object gs)))

  required-ok :
      (codec : Codec N) (o : Option (Json N)) (x : Json N) → required codec o ≡ ok x → o ≡ some x
  required-ok codec none x h = absurd (cc)
  required-ok codec (some y) x h = ap some (ok_inj h)

  require_dict-ok :
      (codec : Codec N) (x : Json N) (gs : Fields N) → require_dict codec x ≡ ok gs → x ≡ object gs
  require_dict-ok codec (object fs) gs h = ap object (ok_inj h)
  require_dict-ok codec null gs h = absurd (cc)
  require_dict-ok codec (text s) gs h = absurd (cc)
  require_dict-ok codec (flag b) gs h = absurd (cc)
  require_dict-ok codec (int n) gs h = absurd (cc)
  require_dict-ok codec (number y) gs h = absurd (cc)
  require_dict-ok codec (array xs) gs h = absurd (cc)

  require-digest :
      (codec : Codec N) (x : Json N) (actual : String)
      → require (is_digest codec x actual) digest_mismatch ≡ ok tt
      → x ≡ text actual
  require-digest codec (text s) actual h = ap text ((string_eq.beq_iff s actual).0 (ground arith))
  require-digest codec (object fs) actual h = absurd (cc)
  require-digest codec null actual h = absurd (cc)
  require-digest codec (flag b) actual h = absurd (cc)
  require-digest codec (int n) actual h = absurd (cc)
  require-digest codec (number y) actual h = absurd (cc)
  require-digest codec (array xs) actual h = absurd (cc)

  loaded-ok :
      (codec : Codec N) (r : Result LoadError (Json N)) (x : Json N)
      → loaded codec r ≡ ok x
      → r ≡ ok x
  loaded-ok codec (ok y) x h = ap ok (ok_inj h)
  loaded-ok codec (raise json_decode_error) x h = absurd (cc)
  loaded-ok codec (raise other_error) x h = absurd (cc)

  envelope_fields-object :
      (codec : Codec N) (e : Json N) (k : String) (x : Json N)
      → lookup k (entries (envelope_fields codec e)) ≡ some x
      → e ≡ object (envelope_fields codec e)
  unfolding lookup
  envelope_fields-object codec (object fs) k x h = refl
  envelope_fields-object codec null k x h = absurd (cc)
  envelope_fields-object codec (text s) k x h = absurd (cc)
  envelope_fields-object codec (flag b) k x h = absurd (cc)
  envelope_fields-object codec (int n) k x h = absurd (cc)
  envelope_fields-object codec (number y) k x h = absurd (cc)
  envelope_fields-object codec (array xs) k x h = absurd (cc)

  -- Bytes decode to a dictionary just when they hold that dictionary under `payload` and the
  -- digest of that very dictionary beside it.
  pub decode_checkpoint_iff :
      (codec : Codec N) (bytes : codec.Bytes) (gs : Fields N)
      → (decode_checkpoint codec bytes ≡ ok gs) ↔ IsEnvelope codec bytes gs
  unfolding decode_checkpoint
  decode_checkpoint_iff codec bytes gs = (
    (λ h.
        let (e, e0, h0) = >>=-eq-ok (loaded codec (codec.loads bytes)) _ h in
        let es = envelope_fields codec e in
        let (payload, e1, h1) = >>=-eq-ok (required codec (lookup "payload" (entries es))) _ h0 in
        let (expected, e2, h2) = >>=-eq-ok (required codec (lookup "sha256" (entries es))) _ h1 in
        let (_, e3, h3) =
          >>=-eq-ok (require (is_digest codec expected (digest_of codec payload)) digest_mismatch) _
            h2 in
        let at_payload = required-ok codec (lookup "payload" (entries es)) payload e1 in
        let shape = require_dict-ok codec payload gs h3 in
        record {
          es = es;
          is_loaded =
              loaded-ok codec (codec.loads bytes) e e0
              ∙ ap ok (envelope_fields-object codec e "payload" payload at_payload);
          payload = at_payload ∙ ap some shape;
          digest =
              required-ok codec (lookup "sha256" (entries es)) expected e2
              ∙ ap some
                  (require-digest codec expected _ e3 ∙ ap (λ x. text (digest_of codec x)) shape);
        }),
    λ e.
        accepted codec e.es gs (digest_of codec (object gs)) bytes e.is_loaded e.payload e.digest
          refl,
  )
