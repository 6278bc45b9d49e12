-- ===== src/Water/Planner/Table.antt =====
-- The generated table is read within its bounds, at the entry of the observation.
use native.Mathlib.Nat.{suc-mul}
use mncs_reference_studies.Common.{
  ℕ, zero, suc, ◌+◌, ◌*◌, ◌/◌, ◌≤◌, ◌<◌, Bool, ◌≡◌, refl, ap, subst, ◌∙◌, some, List, [], ◌∷◌, ◌++◌,
  ltb, arith, length, length-append, get_elem?, get_or, Bool-cases, ltb→lt, inl, inr,
}
use mncs_reference_studies.Common.Result.{ok}
use mncs_reference_studies.Python.Floats.{Floats}
use mncs_reference_studies.Water.Model.{TelemetryQuality, TelemetrySample, ControllerState}
use mncs_reference_studies.Water.Planner.{
  for_range, decision, decision_table, quality_entries, power_entries, standby_entries,
  duty_entries, demand_entries, quality_index, int_of, bisect_from, bisect_right, level_bands_pct,
  demand_bands_lps, level_index, demand_index, table_index, observed_index, table_proposal,
  entry_proposal, generated_table,
}

get_elem?-left {ℓ} :
    {A : Type ℓ} (xs ys : List A) (i : ℕ) → i < length xs → get_elem? (xs ++ ys) i ≡ get_elem? xs i
get_elem?-left [] ys i h = absurd (omega arith)
get_elem?-left (x ∷ xs) ys zero h = refl
get_elem?-left (x ∷ xs) ys (suc i) h = get_elem?-left xs ys i (omega arith)

suc_plus : (a b : ℕ) → suc (a + b) ≡ suc a + b
suc_plus a b = omega arith

get_elem?-right {ℓ} :
    {A : Type ℓ} (xs ys : List A) (i : ℕ) → get_elem? (xs ++ ys) (length xs + i) ≡ get_elem? ys i
get_elem?-right [] ys i = ap (get_elem? ys) (omega arith)
get_elem?-right (x ∷ xs) ys i =
    subst (λ k. get_elem? (x ∷ xs ++ ys) k ≡ get_elem? ys i) (suc_plus (length xs) i)
      (get_elem?-right xs ys i)

the_start : (a : ℕ) → a ≡ a + 0
the_start a = omega arith

suc_start : (a i : ℕ) → suc a + i ≡ a + suc i
suc_start a i = omega arith

module _ {ℓ} {A : Type ℓ} (f : ℕ → List A) (width : ℕ) (same : (i : ℕ) → length (f i) ≡ width) where
  length-for_range : (start count : ℕ) → length (for_range start count f) ≡ count * width
  unfolding for_range
  length-for_range start zero = omega arith
  length-for_range start (suc count) =
      length-append (f start) (for_range (suc start) count f)
      ∙ omega (arith, same start, length-for_range (suc start) count)

  -- The entry in row i and column j.
  get_elem?-for_range :
      (start count i j : ℕ)
      → i < count
      → j < width
      → get_elem? (for_range start count f) (i * width + j) ≡ get_elem? (f (start + i)) j
  unfolding for_range
  get_elem?-for_range start zero i j h k = absurd (omega arith)
  get_elem?-for_range start (suc count) zero j h k =
      ap (get_elem? (f start ++ for_range (suc start) count f)) (omega arith)
      ∙ get_elem?-left (f start) (for_range (suc start) count f) j (omega (arith, same start))
      ∙ ap (λ k. get_elem? (f k) j) (the_start start)
  get_elem?-for_range start (suc count) (suc i) j h k =
      subst
        (λ k.
          get_elem? (f start ++ for_range (suc start) count f) k ≡ get_elem? (f (start + suc i)) j)
        (next_row (same start))
        (get_elem?-right (f start) (for_range (suc start) count f) (i * width + j)
          ∙ subst
              (λ k. get_elem? (for_range (suc start) count f) (i * width + j) ≡ get_elem? (f k) j)
              (suc_start start i) (get_elem?-for_range (suc start) count i j (omega arith) k))
    where
      next_row : {m : ℕ} → m ≡ width → m + (i * width + j) ≡ suc i * width + j
      next_row e = omega (arith, e, suc-mul i width)

-- The same from 0, with the lengths of the rows.
module _ {ℓ} {A : Type ℓ} (f : ℕ → List A) (width : ℕ) (same : (i : ℕ) → length (f i) ≡ width) where
  entry_at :
      (count i j : ℕ)
      → i < count
      → j < width
      → get_elem? (for_range 0 count f) (i * width + j) ≡ get_elem? (f i) j
  entry_at count i j h k =
      get_elem?-for_range f width same 0 count i j h k ∙ ap (λ m. get_elem? (f m) j) (omega arith)

bisect_from-le :
    (F : Floats) (fuel : ℕ) (bands : List F.Float) (x : F.Float) (low high : ℕ)
    → low ≤ high
    → bisect_from F fuel bands x low high ≤ high
unfolding bisect_from
bisect_from-le F zero bands x low high h = h
bisect_from-le F (suc fuel) bands x low high h = elim (Bool-cases (ltb low high)) [
  | inr done ↦ rw done h
  | inl more ↦ elim (Bool-cases (F.lt x (get_or bands ((low + high) / 2) x))) [
    | inl below ↦
        rw (more, below)
          (omega (
            arith,
            ltb→lt low high more,
            bisect_from-le F fuel bands x low ((low + high) / 2) (omega (arith, h)),
          ))
    | inr above ↦
        rw (more, above)
          (bisect_from-le F fuel bands x ((low + high) / 2 + 1) high
            (omega (arith, ltb→lt low high more)))
  ]
]

module _ {F : Floats} where
  level_index-lt : (x : TelemetrySample F) → level_index x < 7
  unfolding bisect_right
  level_index-lt x =
      omega (arith, bisect_from-le F 6 (level_bands_pct F) x.tank_level_pct 0 6 (omega arith))

  demand_index-lt : (x : TelemetrySample F) → demand_index x < 3
  unfolding bisect_right
  demand_index-lt x =
      omega (arith, bisect_from-le F 2 (demand_bands_lps F) x.demand_lps 0 2 (omega arith))

quality_index-lt : (q : TelemetryQuality) → quality_index q < 3
quality_index-lt q = ground arith

int_of-lt : (b : Bool) → int_of b < 2
int_of-lt b = ground arith

length-quality_entries :
    (level demand duty standby power : ℕ)
    → length (quality_entries level demand duty standby power) ≡ 3
length-quality_entries level demand duty standby power =
    length-for_range (λ q. decision level demand duty standby power q ∷ []) 1 (λ q. refl) 0 3

length-power_entries :
    (level demand duty standby : ℕ) → length (power_entries level demand duty standby) ≡ 6
length-power_entries level demand duty standby =
    length-for_range (quality_entries level demand duty standby) 3
      (length-quality_entries level demand duty standby) 0 2

length-standby_entries : (level demand duty : ℕ) → length (standby_entries level demand duty) ≡ 12
length-standby_entries level demand duty =
    length-for_range (power_entries level demand duty) 6 (length-power_entries level demand duty) 0
      2

length-duty_entries : (level demand : ℕ) → length (duty_entries level demand) ≡ 24
length-duty_entries level demand =
    length-for_range (standby_entries level demand) 12 (length-standby_entries level demand) 0 2

length-demand_entries : (level : ℕ) → length (demand_entries level) ≡ 72
length-demand_entries level =
    length-for_range (duty_entries level) 24 (length-duty_entries level) 0 3

-- Within the shape of the table, the entry at an index is the decision of its six digits.
pub decision_table-table_index :
    (level demand duty standby power quality : ℕ)
    → level < 7
    → demand < 3
    → duty < 2
    → standby < 2
    → power < 2
    → quality < 3
    → get_elem? decision_table (table_index level demand duty standby power quality)
      ≡ some (decision level demand duty standby power quality)
unfolding decision_table table_index
decision_table-table_index level demand duty standby power quality hl hd hu hs hp hq =
    ap (get_elem? decision_table) same_index
    ∙ entry_at demand_entries 72 (length-demand_entries) 7 level _ hl (omega arith)
    ∙ entry_at (duty_entries level) 24 (length-duty_entries level) 3 demand _ hd (omega arith)
    ∙ entry_at (standby_entries level demand) 12 (length-standby_entries level demand) 2 duty _ hu
        (omega arith)
    ∙ entry_at (power_entries level demand duty) 6 (length-power_entries level demand duty) 2
        standby _ hs (omega arith)
    ∙ entry_at (quality_entries level demand duty standby) 3
        (length-quality_entries level demand duty standby) 2 power _ hp (omega arith)
    ∙ quality_entry
  where
    same_index :
        ((((level * 3 + demand) * 2 + duty) * 2 + standby) * 2 + power) * 3 + quality
        ≡ level * 72 + (demand * 24 + (duty * 12 + (standby * 6 + (power * 3 + quality))))
    same_index = omega arith

    quality_entry :
        get_elem? (quality_entries level demand duty standby power) quality
        ≡ some (decision level demand duty standby power quality)
    quality_entry =
        ap (get_elem? (quality_entries level demand duty standby power)) (omega arith)
        ∙ entry_at (λ q. decision level demand duty standby power q ∷ []) 1 (λ q. refl) 3 quality 0
            hq (omega arith)

-- On any observation the generated planner proposes, without an error, the decision of the bands
-- that the observation falls in.
pub generated_table-decision :
    {F : Floats} (x : TelemetrySample F) (s : ControllerState)
    → generated_table x s
      ≡ ok (
          table_proposal (observed_index x s) (
            decision
              (level_index x)
              (demand_index x)
              (int_of s.duty_on)
              (int_of s.standby_on)
              (int_of x.power_available)
              (quality_index x.quality)))
unfolding generated_table
generated_table-decision x s = ap (entry_proposal (observed_index x s)) (
    decision_table-table_index (level_index x) (demand_index x) (int_of s.duty_on)
      (int_of s.standby_on) (int_of x.power_available) (quality_index x.quality) (level_index-lt x)
      (demand_index-lt x) (int_of-lt s.duty_on) (int_of-lt s.standby_on)
      (int_of-lt x.power_available) (quality_index-lt x.quality))
