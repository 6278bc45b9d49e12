-- ===== src/Water/Journal/Chain.antt =====
-- The journal as a hash chain.
use mncs_reference_studies.Common.{
  ℕ, suc, ◌+◌, String, Bool, true, ◌&&◌, ◌≡◌, refl, sym, subst, ◌∙◌, List, [], ◌∷◌, ◌++◌, ◌==◌,
  string_eq, length, arith, length-append, beq_self,
}
use mncs_reference_studies.Common.Int.{ℤ, pos, ◌+ℤ◌, ◌-ℤ◌, int_eq, +ℤ_parts, -ℤ_parts, eq_of_parts}
use mncs_reference_studies.Common.Result.{ok}
use mncs_reference_studies.Python.Json.{Codec}
use mncs_reference_studies.Water.Model.{AuthorizedIntent}
use mncs_reference_studies.Water.Journal.{
  JournalEntry, IntentJournal, entry_digest, next_entry, appended, append, is_linked, verify_from,
  first_hash, first_sequence, verify,
}

pos_suc : (n : ℤ) (k : ℕ) → n +ℤ pos 1 +ℤ pos k ≡ n +ℤ pos (suc k)
pos_suc n k =
    eq_of_parts _ _
      (omega (arith, +ℤ_parts (n +ℤ pos 1) (pos k), +ℤ_parts n (pos 1), +ℤ_parts n (pos (suc k))))

plus_zero : (n : ℤ) → n +ℤ pos 0 ≡ n
plus_zero n = eq_of_parts _ _ (omega (arith, +ℤ_parts n (pos 0)))

both : (a b : Bool) → (a && b) ≡ true → (a ≡ true) × (b ≡ true)
both a b h = ground arith

-- The sequence of the first entry stays, and the next one follows on the last.
first_sequence_next :
    (last : ℤ) (k : ℕ) → last +ℤ pos 1 -ℤ pos (k + 1) +ℤ pos 1 ≡ last -ℤ pos k +ℤ pos 1
first_sequence_next last k = eq_of_parts _ _ (
    omega (
      arith,
      +ℤ_parts (last +ℤ pos 1 -ℤ pos (k + 1)) (pos 1),
      -ℤ_parts (last +ℤ pos 1) (pos (k + 1)),
      +ℤ_parts last (pos 1),
      +ℤ_parts (last -ℤ pos k) (pos 1),
      -ℤ_parts last (pos k),
    ))

last_sequence_next : (last : ℤ) (k : ℕ) → last +ℤ pos 1 ≡ last -ℤ pos k +ℤ pos 1 +ℤ pos k
last_sequence_next last k = eq_of_parts _ _ (
    omega (
      arith,
      +ℤ_parts last (pos 1),
      +ℤ_parts (last -ℤ pos k +ℤ pos 1) (pos k),
      +ℤ_parts (last -ℤ pos k) (pos 1),
      -ℤ_parts last (pos k),
    ))

module _ {N : Type 0} (codec : Codec N) where
  -- A chain that ends in a hash can be extended by an entry on that hash.
  verify_from-snoc :
      (n : ℤ) (p t : String) (xs : List (JournalEntry N)) (y : JournalEntry N)
      → verify_from codec n p xs t ≡ true
      → is_linked codec (n +ℤ pos (length xs)) t y ≡ true
      → verify_from codec n p (xs ++ (y ∷ [])) y.entry_hash ≡ true
  unfolding verify_from
  verify_from-snoc n p t [] y h l =
      rw
        (
          (string_eq.beq_iff p t).0 h,
          subst (λ m. is_linked codec m t y ≡ true) (plus_zero n) l,
          beq_self string_eq y.entry_hash,
        )
        refl
  verify_from-snoc n p t (x ∷ xs) y h l =
      let (linked, rest) =
        both (is_linked codec n p x) (verify_from codec (n +ℤ pos 1) x.entry_hash xs t) h in
      rw
        (
          linked,
          verify_from-snoc (n +ℤ pos 1) x.entry_hash t xs y rest
              (subst (λ m. is_linked codec m t y ≡ true) (sym (pos_suc n (length xs))) l),
        )
        refl

  first_hash-snoc :
      (xs : List (JournalEntry N)) (y : JournalEntry N) (t u : String)
      → y.previous_hash ≡ t
      → first_hash (xs ++ (y ∷ [])) u ≡ first_hash xs t
  first_hash-snoc [] y t u h = h
  first_hash-snoc (x ∷ xs) y t u h = refl

  next-IsLinked :
      (j : IntentJournal N) (i : AuthorizedIntent)
      → is_linked codec i.sequence j.tail_hash (next_entry codec j i) ≡ true
  next-IsLinked j i =
      rw
        (
          beq_self int_eq i.sequence,
          beq_self string_eq j.tail_hash,
          beq_self string_eq (next_entry codec j i).entry_hash,
        )
        refl

  -- Appending to a journal that verifies, in sequence, never raises and gives a journal that
  -- verifies, one entry longer and one further in sequence.
  pub append-verify :
      (j : IntentJournal N) (i : AuthorizedIntent)
      → i.sequence ≡ j.last_sequence +ℤ pos 1
      → verify codec j ≡ true
      → (append codec j i ≡ ok (appended codec j i)) × (verify codec (appended codec j i) ≡ true)
  unfolding append verify
  append-verify j i next valid = (
    rw (next, beq_self int_eq (j.last_sequence +ℤ pos 1)) refl,
    rw
        (
          same_first,
          first_hash-snoc j.entries (next_entry codec j i) j.tail_hash
              (next_entry codec j i).entry_hash refl,
        )
        (verify_from-snoc (first_sequence j) (first_hash j.entries j.tail_hash) j.tail_hash
          j.entries (next_entry codec j i) valid
          (subst (λ m. is_linked codec m j.tail_hash (next_entry codec j i) ≡ true)
            (next ∙ last_sequence_next j.last_sequence (length j.entries)) (next-IsLinked j i))),
  )
    where
      same_first : first_sequence (appended codec j i) ≡ first_sequence j
      same_first =
          rw (length-append j.entries (next_entry codec j i ∷ []), next)
            (first_sequence_next j.last_sequence (length j.entries))

  -- Where the digests of entries at one place agree, so do the contents: what SHA-256 and the
  -- canonical form promise for the payloads at hand.
  abbrev pub IsCollisionFree : List (JournalEntry N) → List (JournalEntry N) → Type 0
  IsCollisionFree [] ys = Unit
  IsCollisionFree (x ∷ xs) [] = Unit
  IsCollisionFree (x ∷ xs) (y ∷ ys) =
      (entry_digest codec x.previous_hash x.intent ≡ entry_digest codec y.previous_hash y.intent
        → (x.previous_hash ≡ y.previous_hash)
          × (codec.canonical x.intent ≡ codec.canonical y.intent))
      × IsCollisionFree xs ys

  linked_parts :
      (n : ℤ) (p : String) (x : JournalEntry N)
      → is_linked codec n p x ≡ true
      → (x.previous_hash ≡ p) × (entry_digest codec x.previous_hash x.intent ≡ x.entry_hash)
  linked_parts n p x h =
      let (numbered, hashed) =
        both (x.sequence == n && x.previous_hash == p)
          (entry_digest codec p x.intent == x.entry_hash) h in
      let (_, named) = both (x.sequence == n) (x.previous_hash == p) numbered in
      let e = (string_eq.beq_iff x.previous_hash p).0 named in
      (e, rw e ((string_eq.beq_iff (entry_digest codec p x.intent) x.entry_hash).0 hashed))

  -- Entry by entry, the two journals are the same, up to the order of the keys of an intent.
  pub data IsSameChain : List (JournalEntry N) → List (JournalEntry N) → Type 0 where
    same_end : IsSameChain [] []
    same_entry :
        {x y : JournalEntry N} {xs ys : List (JournalEntry N)}
        → x.previous_hash ≡ y.previous_hash
        → codec.canonical x.intent ≡ codec.canonical y.intent
        → x.entry_hash ≡ y.entry_hash
        → IsSameChain xs ys
        → IsSameChain (x ∷ xs) (y ∷ ys)

  chain_unique :
      (n m : ℤ) (p q t : String) (xs ys : List (JournalEntry N))
      → IsCollisionFree xs ys
      → length xs ≡ length ys
      → verify_from codec n p xs t ≡ true
      → verify_from codec m q ys t ≡ true
      → (p ≡ q) × IsSameChain xs ys
  unfolding verify_from
  chain_unique n m p q t [] [] free same h k =
      ((string_eq.beq_iff p t).0 h ∙ sym ((string_eq.beq_iff q t).0 k), same_end)
  chain_unique n m p q t [] (y ∷ ys) free same h k = absurd (omega arith)
  chain_unique n m p q t (x ∷ xs) [] free same h k = absurd (omega arith)
  chain_unique n m p q t (x ∷ xs) (y ∷ ys) free same h k =
      let (x_linked, x_rest) =
        both (is_linked codec n p x) (verify_from codec (n +ℤ pos 1) x.entry_hash xs t) h in
      let (y_linked, y_rest) =
        both (is_linked codec m q y) (verify_from codec (m +ℤ pos 1) y.entry_hash ys t) k in
      let (x_previous, x_hash) = linked_parts n p x x_linked in
      let (y_previous, y_hash) = linked_parts m q y y_linked in
      let (same_hash, same_rest) =
        chain_unique (n +ℤ pos 1) (m +ℤ pos 1) x.entry_hash y.entry_hash t xs ys free.1
          (omega arith) x_rest y_rest in
      let (same_previous, same_intent) = free.0 (x_hash ∙ same_hash ∙ sym y_hash) in
      (
        sym x_previous ∙ same_previous ∙ y_previous,
        same_entry same_previous same_intent same_hash same_rest,
      )

  -- Tamper evidence: two journals that verify, of one length and with one tail hash, hold the same
  -- intents under the same hashes, where the digests of their entries do not collide.
  pub verify-IsSameChain :
      (j k : IntentJournal N)
      → IsCollisionFree j.entries k.entries
      → length j.entries ≡ length k.entries
      → j.tail_hash ≡ k.tail_hash
      → verify codec j ≡ true
      → verify codec k ≡ true
      → IsSameChain j.entries k.entries
  unfolding verify
  verify-IsSameChain j k free same tail h h' =
      (chain_unique (first_sequence j) (first_sequence k) (first_hash j.entries j.tail_hash)
        (first_hash k.entries k.tail_hash) j.tail_hash j.entries k.entries free same h
        (subst
          (λ t.
            verify_from codec (first_sequence k) (first_hash k.entries k.tail_hash) k.entries t
            ≡ true)
          (sym tail) h')).1
