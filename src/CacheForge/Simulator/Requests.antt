-- ===== src/CacheForge/Simulator/Requests.antt =====
-- `process` and `run` on a valid idle cache, under any policy.
use mncs_reference_studies.Common.{
  ℕ, zero, suc, ◌+◌, String, ◌≡◌, refl, sym, ◌∙◌, true, inl, inr, subst, Bool-cases, Option,
  string_eq, List, [], ◌∷◌,
}
use mncs_reference_studies.Common.Int.{ℤ, int_eq}
use mncs_reference_studies.Common.Sets.{add}
use mncs_reference_studies.Common.Sorting.{All}
use mncs_reference_studies.CacheForge.Model.{GroupSpec}
use mncs_reference_studies.CacheForge.State.{is_kind}
use mncs_reference_studies.CacheForge.Simulator.Ownership.{HeldBy}
use mncs_reference_studies.CacheForge.Simulator.Steps.{access-IsAccessed, access-HeldBy}
use mncs_reference_studies.CacheForge.Simulator.Raises.{
  Safe, Safe-of, Safe-bind, access-raises, raises_of_Safe,
}
use mncs_reference_studies.CacheForge.Simulator.Expiry.{IsKept, IsReady, advance_sliding-IsSlid}
use mncs_reference_studies.CacheForge.Simulator.{
  Simulator, Access, access, Work, touch, touch_groups, prompt_access, generated_access,
  prompt_loop, is_stop, generated_loop, run,
}

-- The local variables of `process` between two accesses.
pub record IsRunning (rid : String) (groups : List GroupSpec) (w : Work) : Type 0 where
  pub kept : IsKept rid w.sim.state w.owned
  pub ready : All (IsReady w.windows) groups
  pub same_groups : w.sim.groups ≡ groups

module _ (rid : String) (groups : List GroupSpec) where
  touch-Safe :
      (w : Work) (a : Access) (g : GroupSpec)
      → a.request_id ≡ rid
      → is_kind a.kind ≡ true
      → IsRunning rid groups w
      → IsReady w.windows g
      → Safe (IsRunning rid groups) (touch w a g)
  unfolding touch
  touch-Safe w a g same kind run ready =
      Safe-bind
        (λ (r : ℤ × Simulator). IsKept rid r.1.state (add r.0 w.owned) × (r.1.groups ≡ groups))
        (IsRunning rid groups) (access w.sim b) _
        (Safe-of _ (access w.sim b)
          (λ r e. (
            record {
              valid = (access-IsAccessed w.sim b r.0 r.1 run.kept.valid kind e).valid;
              held =
                  subst (λ i. HeldBy i (add r.0 w.owned) r.1.state) same
                    (access-HeldBy w.sim b r.0 r.1 w.owned run.kept.valid
                      (subst (λ i. HeldBy i w.owned w.sim.state) (sym same) run.kept.held) e);
            },
            (access-IsAccessed w.sim b r.0 r.1 run.kept.valid kind e).same_groups ∙ run.same_groups,
          ))
          (λ e raised.
            raises_of_Safe (λ (r : ℤ × Simulator). Unit {0}) (access w.sim b) e
              (access-raises w.sim b run.kept.valid) raised))
        (λ r (kept, same_groups).
          let (out, e, slid) =
            advance_sliding-IsSlid rid groups g r.0 r.1.state (add r.0 w.owned) w.windows kept
              run.ready ready in
          rw (same, e) (record { kept = slid.kept; ready = slid.ready; same_groups = same_groups }))
    where
      b : Access
      b = record a { group = g.name }

  touch_groups-Safe :
      (w : Work) (a : Access) (gs : List GroupSpec)
      → ((P : GroupSpec → Type 0) → All P groups → All P gs)
      → a.request_id ≡ rid
      → is_kind a.kind ≡ true
      → IsRunning rid groups w
      → Safe (IsRunning rid groups) (touch_groups w a gs)
  unfolding touch_groups
  touch_groups-Safe w a [] sub same kind run = run
  touch_groups-Safe w a (g ∷ gs) sub same kind run =
      Safe-bind (IsRunning rid groups) (IsRunning rid groups) (touch w a g) _
        (touch-Safe w a g same kind run (sub (IsReady w.windows) run.ready).0)
        (λ w' run'. touch_groups-Safe w' a gs (λ P h. (sub P h).1) same kind run')

  pub prompt_loop-Safe :
      (w : Work) (keys : List String)
      → IsRunning rid groups w
      → Safe (IsRunning rid groups) (prompt_loop w groups rid keys)
  unfolding prompt_loop is_kind
  prompt_loop-Safe w [] run = run
  prompt_loop-Safe w (key ∷ keys) run =
      Safe-bind (IsRunning rid groups) (IsRunning rid groups)
        (touch_groups w (prompt_access rid key) groups) _
        (touch_groups-Safe w (prompt_access rid key) groups (λ P h. h) refl refl run)
        (λ w' run'. prompt_loop-Safe w' keys run')

  pub generated_loop-Safe :
      (w : Work) (stop : Option ℕ) (index rest : ℕ)
      → IsRunning rid groups w
      → Safe (IsRunning rid groups) (generated_loop w groups rid stop index rest)
  unfolding generated_loop is_kind
  generated_loop-Safe w stop index zero run = elim (Bool-cases (is_stop stop index)) [
    | inl stops ↦
        rw stops (record { kept = run.kept; ready = run.ready; same_groups = run.same_groups })
    | inr goes ↦ rw goes run
  ]
  generated_loop-Safe w stop index (suc rest) run = elim (Bool-cases (is_stop stop index)) [
    | inl stops ↦
        rw stops (record { kept = run.kept; ready = run.ready; same_groups = run.same_groups })
    | inr goes ↦ rw goes (
        Safe-bind (IsRunning rid groups) (IsRunning rid groups)
          (touch_groups w (generated_access rid index) groups) _
          (touch_groups-Safe w (generated_access rid index) groups (λ P h. h) refl refl run)
          (λ w' run'. generated_loop-Safe w' stop (index + 1) rest run'))
  ]
