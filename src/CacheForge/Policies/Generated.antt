-- ===== src/CacheForge/Policies/Generated.antt =====
-- machine/generated_policy.py and the table that tools/generate_policy.py renders from
-- generator/policy-spec.json.
use Prim.Native.Nat.{bit_or}
use mncs_reference_studies.Common.{
  true, false, ltb, ltb→lt, ◌<◌, ◌&&◌, arith, ℕ, zero, suc, ◌+◌, ◌*◌, ◌^◌, ◌/◌, ◌%◌, Bool, List, [],
  ◌∷◌, if◌then◌else◌, ◌==◌, string_eq, length, get_or, ◌≡◌, refl, nat_eq,
}
use mncs_reference_studies.Common.Int.{ℤ, pos, negsuc, ◌+ℤ◌, ◌-ℤ◌, leb_ℤ, int_eq}
use mncs_reference_studies.CacheForge.Model.{CacheBlock}
use mncs_reference_studies.CacheForge.Policies.{EvictionPolicy, propose_sorted}

-- `EVICTION_RANK`; `negsuc n` is -(n + 1).
abbrev pub eviction_rank : List ℤ
eviction_rank =
    pos 100
    ∷ pos 70
    ∷ pos 10
    ∷ negsuc 19
    ∷ pos 50
    ∷ pos 20
    ∷ negsuc 39
    ∷ negsuc 69
    ∷ pos 120
    ∷ pos 90
    ∷ pos 30
    ∷ pos 0
    ∷ pos 70
    ∷ pos 40
    ∷ negsuc 19
    ∷ negsuc 49
    ∷ pos 90
    ∷ pos 60
    ∷ pos 0
    ∷ negsuc 29
    ∷ pos 40
    ∷ pos 10
    ∷ negsuc 49
    ∷ negsuc 79
    ∷ pos 110
    ∷ pos 80
    ∷ pos 20
    ∷ negsuc 9
    ∷ pos 60
    ∷ pos 30
    ∷ negsuc 29
    ∷ negsuc 59
    ∷ pos 170
    ∷ pos 140
    ∷ pos 80
    ∷ pos 50
    ∷ pos 120
    ∷ pos 90
    ∷ pos 30
    ∷ pos 0
    ∷ pos 190
    ∷ pos 160
    ∷ pos 100
    ∷ pos 70
    ∷ pos 140
    ∷ pos 110
    ∷ pos 50
    ∷ pos 20
    ∷ pos 160
    ∷ pos 130
    ∷ pos 70
    ∷ pos 40
    ∷ pos 110
    ∷ pos 80
    ∷ pos 20
    ∷ negsuc 9
    ∷ pos 180
    ∷ pos 150
    ∷ pos 90
    ∷ pos 60
    ∷ pos 130
    ∷ pos 100
    ∷ pos 40
    ∷ pos 10
    ∷ []

abbrev pub recent_age_threshold : ℤ
recent_age_threshold = pos 3

-- `int(flag) << place`
abbrev shifted : Bool → ℕ → ℕ
shifted flag place = (if flag then 1 else 0) * 2 ^ place

abbrev pub flags_mask : Bool → Bool → Bool → Bool → Bool → Bool → ℕ
flags_mask prompt shared hot sliding recent generated =
    let m0 = bit_or 0 (shifted prompt 0) in
    let m1 = bit_or m0 (shifted shared 1) in
    let m2 = bit_or m1 (shifted hot 2) in
    let m3 = bit_or m2 (shifted sliding 3) in
    let m4 = bit_or m3 (shifted recent 4) in bit_or m4 (shifted generated 5)

unfoldable pub feature_mask : CacheBlock → ℤ → ℕ
feature_mask b clock =
    flags_mask (b.kind == "prompt") b.is_shared (leb_ℤ (pos 2) b.reuse_count) (b.group == "sliding")
      (leb_ℤ (clock -ℤ b.last_used) recent_age_threshold) (b.kind == "generated")

abbrev pub rank_of : ℕ → ℤ
rank_of mask = get_or eviction_rank mask (pos 0)

abbrev pub generated_key : ℤ → CacheBlock → List ℤ
generated_key clock b = (pos 0 -ℤ rank_of (feature_mask b clock)) ∷ b.last_used ∷ b.block_id ∷ []

abbrev pub generated_policy : EvictionPolicy
generated_policy = record {
  policy_id = "cacheforge.machine.eviction-table.v1";
  propose = λ s required. propose_sorted (generated_key s.clock) s required;
}

-- The weights of generator/policy-spec.json, in the order of its `features`.
abbrev base_rank : ℤ
base_rank = pos 100

abbrev feature_weights : List ℤ
feature_weights = negsuc 29 ∷ negsuc 89 ∷ negsuc 49 ∷ pos 20 ∷ negsuc 9 ∷ pos 70 ∷ []

-- The inner loop of `render`: the weights of the bits that are set.
unfoldable pub masked_rank : ℤ → List ℤ → ℕ → ℤ
masked_rank rank [] mask = rank
masked_rank rank (w ∷ ws) mask =
    masked_rank (if mask % 2 == 1 then rank +ℤ w else rank) ws (mask / 2)

unfoldable pub render_rows : ℕ → ℕ → List ℤ
unfolding masked_rank ◌+ℤ◌
render_rows zero mask = []
render_rows (suc n) mask = masked_rank base_rank feature_weights mask ∷ render_rows n (mask + 1)

-- The outer loop of `render`, over `range(1 << len(features))`.
unfoldable pub render_table : List ℤ
unfolding render_rows
render_table = render_rows (2 ^ length feature_weights) 0

-- The checked-in table is the one that the generator renders.
pub eviction_rank-render_table : eviction_rank ≡ render_table
unfolding render_table
eviction_rank-render_table = refl

abbrev pub weighed : Bool → ℤ → ℤ → ℤ
weighed flag weight rank = if flag then rank +ℤ weight else rank

-- The rank that the specification of the policy gives to the six features of a block.
abbrev pub specified_rank : Bool → Bool → Bool → Bool → Bool → Bool → ℤ
specified_rank prompt shared hot sliding recent generated = weighed generated (pos 70) (
    weighed recent (negsuc 9) (
      weighed sliding (pos 20) (
        weighed hot (negsuc 49)
          (weighed shared (negsuc 89) (weighed prompt (negsuc 29) (pos 100))))))

abbrev all_flags : (Bool → Bool) → Bool
all_flags p = p true && p false

ranks_agree : Bool → Bool → Bool → Bool → Bool → Bool → Bool
unfolding ◌+ℤ◌
ranks_agree a b c d e f =
    ltb (flags_mask a b c d e f) (length eviction_rank)
    && int_eq.beq (rank_of (flags_mask a b c d e f)) (specified_rank a b c d e f)

all_flags_sound : (p : Bool → Bool) → all_flags p ≡ true → (b : Bool) → p b ≡ true
all_flags_sound p h true = ground arith
all_flags_sound p h false = ground arith

abbrev agree_e : Bool → Bool → Bool → Bool → Bool → Bool
agree_e a b c d e = all_flags (ranks_agree a b c d e)

abbrev agree_d : Bool → Bool → Bool → Bool → Bool
agree_d a b c d = all_flags (agree_e a b c d)

abbrev agree_c : Bool → Bool → Bool → Bool
agree_c a b c = all_flags (agree_d a b c)

abbrev agree_b : Bool → Bool → Bool
agree_b a b = all_flags (agree_c a b)

abbrev agree_a : Bool → Bool
agree_a a = all_flags (agree_b a)

ranks_table : all_flags agree_a ≡ true
unfolding ranks_agree
ranks_table = refl

ranks_agree_lem : (a b c d e f : Bool) → ranks_agree a b c d e f ≡ true
ranks_agree_lem a b c d e f =
    let ha = all_flags_sound agree_a ranks_table a in
    let hb = all_flags_sound (agree_b a) ha b in
    let hc = all_flags_sound (agree_c a b) hb c in
    let hd = all_flags_sound (agree_d a b c) hc d in
    let he = all_flags_sound (agree_e a b c d) hd e in all_flags_sound (ranks_agree a b c d e) he f

both_true : (p q : Bool) → (p && q) ≡ true → (p ≡ true) × (q ≡ true)
both_true p q h = ground arith

flags_rank :
    (a b c d e f : Bool)
    → (flags_mask a b c d e f < length eviction_rank)
      × (rank_of (flags_mask a b c d e f) ≡ specified_rank a b c d e f)
unfolding ranks_agree
flags_rank a b c d e f =
    let (low, same) = both_true _ _ (ranks_agree_lem a b c d e f) in
    (ltb→lt _ _ low, (int_eq.beq_iff _ _).0 same)

-- The table is read within its bounds, and the rank it gives to a block is the sum of the weights
-- of the features that the block has.
pub feature_mask-rank :
    (b : CacheBlock) (clock : ℤ)
    → (feature_mask b clock < length eviction_rank)
      × (rank_of (feature_mask b clock)
          ≡ specified_rank
              (b.kind == "prompt")
              b.is_shared
              (leb_ℤ (pos 2) b.reuse_count)
              (b.group == "sliding")
              (leb_ℤ (clock -ℤ b.last_used) recent_age_threshold)
              (b.kind == "generated"))
unfolding feature_mask
feature_mask-rank b clock = flags_rank _ _ _ _ _ _
