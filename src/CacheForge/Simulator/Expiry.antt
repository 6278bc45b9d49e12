-- ===== src/CacheForge/Simulator/Expiry.antt =====
-- The sliding windows: what `_advance_sliding` keeps, and that a window never outgrows its limit.
use mncs_reference_studies.Common.{
  ℕ, ◌≤◌, String, ◌≡◌, refl, sym, ◌∙◌, true, inl, inr, subst, Bool-cases, some, arith, string_eq,
  length, List, [], ◌∷◌, ◌++◌, ltb, ◌==◌, some_inj, true_ne_false, if◌then◌else◌,
}
use mncs_reference_studies.Common.Int.{ℤ, int_eq}
use mncs_reference_studies.Common.Result.{ok}
use mncs_reference_studies.Common.Sets.{discard}
use mncs_reference_studies.Common.Sorting.{All}
use mncs_reference_studies.Dict.{lookup, insert, lookup-insert, lookup-insert_self}
use mncs_reference_studies.CacheForge.Model.{GroupSpec}
use mncs_reference_studies.CacheForge.State.{CacheState}
use mncs_reference_studies.CacheForge.State.Valid.{IsValid}
use mncs_reference_studies.CacheForge.Simulator.Blocks.{disown}
use mncs_reference_studies.CacheForge.Simulator.Preserve.{disown-IsValid}
use mncs_reference_studies.CacheForge.Simulator.Ownership.{HeldBy, disown-HeldBy}
use mncs_reference_studies.CacheForge.Simulator.Sliding.{Windows, expire, advance_sliding}

-- A state and the set of owned ids, while a request runs.
pub record IsKept (rid : String) (s : CacheState) (owned : List ℤ) : Type 0 where
  pub valid : IsValid s
  pub held : HeldBy rid owned s

expire-IsKept :
    (limit : ℕ) (rid : String) (s : CacheState) (owned window : List ℤ)
    → IsKept rid s owned
    → let r = expire limit rid s owned window in IsKept rid r.0 r.1 × (length r.2 ≤ limit)
unfolding expire
expire-IsKept limit rid s owned [] k = (k, omega arith)
expire-IsKept limit rid s owned (id ∷ window) k =
    let rest = expire-IsKept limit rid (disown rid id s) (discard id owned) window (record {
      valid = disown-IsValid rid id s k.valid;
      held = disown-HeldBy rid owned s id k.held;
    }) in
    elim (Bool-cases (ltb limit (length (id ∷ window)))) [
      | inl long ↦ rw long rest
      | inr fits ↦ rw fits (k, ground arith)
    ]

-- A sliding group has a limit and a window.
abbrev pub IsReady : Windows → GroupSpec → Type 0
IsReady ws g =
    (g.mode == "sliding") ≡ true
    → (limit : ℕ) × (g.window_blocks ≡ some limit)
      × (window : List ℤ) × (lookup g.name ws ≡ some window)

insert-IsReady :
    (ws : Windows) (name : String) (window : List ℤ) (g : GroupSpec)
    → IsReady ws g
    → IsReady (insert name window ws) g
insert-IsReady ws name window g r sliding =
    let (limit, e, w, found) = r sliding in
    (
      limit,
      e,
      (if name == g.name then window else w),
      ground (arith, lookup-insert name g.name window ws),
    )

insert-All :
    (ws : Windows) (name : String) (window : List ℤ) (gs : List GroupSpec)
    → All (IsReady ws) gs
    → All (IsReady (insert name window ws)) gs
insert-All ws name window [] h = tt
insert-All ws name window (g ∷ gs) h =
    (insert-IsReady ws name window g h.0, insert-All ws name window gs h.1)

-- The local state of a request, with windows for all sliding groups, each within its limit.
pub record IsSlid (rid : String) (gs : List GroupSpec) (g : GroupSpec)
    (r : CacheState × List ℤ × Windows) : Type 0 where
  pub kept : IsKept rid r.0 r.1
  pub ready : All (IsReady r.2) gs
  pub within :
      (limit : ℕ) (window : List ℤ)
      → (g.mode == "sliding") ≡ true
      → g.window_blocks ≡ some limit
      → lookup g.name r.2 ≡ some window
      → length window ≤ limit

-- On a group with a limit and a window `_advance_sliding` never raises; it keeps the cache valid
-- and the owners in order, and leaves the window of the group within its limit.
pub advance_sliding-IsSlid :
    (rid : String) (gs : List GroupSpec) (g : GroupSpec) (id : ℤ) (s : CacheState) (owned : List ℤ)
    (ws : Windows)
    → IsKept rid s owned
    → All (IsReady ws) gs
    → IsReady ws g
    → (r : CacheState × List ℤ × Windows) × (advance_sliding g id rid s owned ws ≡ ok r)
      × IsSlid rid gs g r
unfolding advance_sliding
advance_sliding-IsSlid rid gs g id s owned ws k all ready =
    elim (Bool-cases (g.mode == "sliding")) [
      | inr plain ↦ (
        (s, owned, ws),
        rw plain refl,
        record {
          kept = k;
          ready = all;
          within = λ limit window sliding e found. absurd (true_ne_false (sym sliding ∙ plain));
        },
      )
      | inl sliding ↦
          let (limit, el, w, ew) = ready sliding in
          let (kept, fits) = expire-IsKept limit rid s owned (w ++ (id ∷ [])) k in
          let out = expire limit rid s owned (w ++ (id ∷ [])) in
          (
            (out.0, out.1, insert g.name out.2 ws),
            rw (sliding, el, ew) refl,
            record {
              kept = kept;
              ready = insert-All ws g.name out.2 gs all;
              within = λ limit' window _ e found.
                  let same = some_inj (sym (lookup-insert_self g.name out.2 ws) ∙ found) in
                  let bound = some_inj (sym e ∙ el) in
                  subst (λ (l : List ℤ). length l ≤ limit') same
                    (subst (λ n. length out.2 ≤ n) (sym bound) fits);
            },
          )
    ]
