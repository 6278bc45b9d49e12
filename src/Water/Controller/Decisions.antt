-- ===== src/Water/Controller/Decisions.antt =====
-- One decision of the controller, and what every run of decisions keeps.
use mncs_reference_studies.Common.{
  String, true, some, ◌≡◌, ◌⊎◌, ◌∙◌, refl, inl, inr, arith, bool_eq, string_eq, ◌==◌, Bool-cases,
  if◌then◌else◌,
}
use mncs_reference_studies.Dict.{lookup, insert, lookup-insert}
use mncs_reference_studies.Common.Int.{ℤ, pos, ◌+ℤ◌}
use mncs_reference_studies.Common.Result.{ok}
use mncs_reference_studies.Python.Floats.{Floats}
use mncs_reference_studies.Python.Json.{Codec}
use mncs_reference_studies.Water.Model.{TelemetrySample, PlannerProposal, AuthorizedIntent}
use mncs_reference_studies.Water.Safety.Rules.{IsAdjudicated, authorize-IsAdjudicated}
use mncs_reference_studies.Water.Journal.{appended, verify}
use mncs_reference_studies.Water.Journal.Chain.{append-verify}
use mncs_reference_studies.Water.Controller.{
  Controller, Outcome, outcome_key, InterventionCounts, count, classify_intervention, apply_intent,
  adjudication_of, intent_of, decide,
}

-- Every outcome has a counter.
abbrev pub HasCounts : InterventionCounts → Type 0
HasCounts counts = (o : Outcome) → (n : ℤ) × (lookup (outcome_key o) counts ≡ some n)

-- One counter is one higher, and the others are as before.
pub record IsCountedOnce (key : String) (before after : InterventionCounts) : Type 0 where
  pub old : ℤ
  pub known : lookup key before ≡ some old
  pub each :
      (k : String) → lookup k after ≡ (if key == k then some (old +ℤ pos 1) else lookup k before)

count-IsCountedOnce :
    (o : Outcome) (counts : InterventionCounts)
    → HasCounts counts
    → (after : InterventionCounts) × (count o counts ≡ ok after)
      × IsCountedOnce (outcome_key o) counts after
      × HasCounts after
unfolding count
count-IsCountedOnce o counts has =
    let (n, e) = has o in
    let after : InterventionCounts = insert (outcome_key o) (n +ℤ pos 1) counts in
    let each : (k : String)
        → lookup k after ≡ (if outcome_key o == k then some (n +ℤ pos 1) else lookup k counts) =
      λ k. lookup-insert (outcome_key o) k (n +ℤ pos 1) counts in
    (
      after,
      rw e refl,
      record { old = n; known = e; each = each },
      λ p. elim (Bool-cases (outcome_key o == outcome_key p)) [
        | inl same ↦ (n +ℤ pos 1, rw same at (each (outcome_key p)))
        | inr other ↦ let (m, h) = has p in (m, rw other at (each (outcome_key p)) ∙ h)
      ],
    )

module _ {F : Floats} (codec : Codec F.Float) where
  -- The controller between decisions.
  pub record IsController (c : Controller F) : Type 0 where
    pub in_step : c.journal.last_sequence ≡ c.state.last_sequence
    pub chained : verify codec c.journal ≡ true
    pub paired : c.state.standby_on ≡ true → c.state.duty_on ≡ true
    pub countable : HasCounts c.intervention_counts

  -- What one decision does.
  pub record IsDecided (c : Controller F) (x : TelemetrySample F) (now_s : ℤ) (p : PlannerProposal)
      (i : AuthorizedIntent) (c' : Controller F) : Type 0 where
    pub adjudicated : IsAdjudicated c.config p x c.state now_s (adjudication_of c x now_s p)
    pub authorized : i ≡ intent_of c x now_s p
    pub entered : c'.journal ≡ appended codec c.journal i
    pub commands : (c'.state.duty_on ≡ i.duty_on) × (c'.state.standby_on ≡ i.standby_on)
    pub duty_change :
        ((c'.state.duty_on ≡ c.state.duty_on)
          × (c'.state.duty_last_changed_s ≡ c.state.duty_last_changed_s))
        ⊎ (c'.state.duty_last_changed_s ≡ now_s)
    pub standby_change :
        ((c'.state.standby_on ≡ c.state.standby_on)
          × (c'.state.standby_last_changed_s ≡ c.state.standby_last_changed_s))
        ⊎ (c'.state.standby_last_changed_s ≡ now_s)
    pub sequence : c'.state.last_sequence ≡ c.state.last_sequence +ℤ pos 1
    pub counted :
        IsCountedOnce
          (outcome_key (classify_intervention c.state p (adjudication_of c x now_s p)))
          c.intervention_counts
          c'.intervention_counts
    pub same_config : c'.config ≡ c.config
    pub same_planner : c'.planner ≡ c.planner
    pub invariant : IsController c'

  abbrev pub decided :
      Controller F → TelemetrySample F → ℤ → PlannerProposal → InterventionCounts → Controller F
  decided c x now_s p counts = record c {
    state = apply_intent (intent_of c x now_s p) c.state;
    journal = appended codec c.journal (intent_of c x now_s p);
    intervention_counts = counts;
  }

  -- Whatever a planner proposes, a decision of a controller in step with its journal, paired and with
  -- a counter for every outcome, never raises. It enters one intent, which is what the safety kernel allowed, in a journal that verifies again,
  -- applies it with the time of each change, raises the counter of its outcome by one and no other, and
  -- leaves the controller in step, paired and with its counters again.
  pub decide-IsDecided :
      (c : Controller F) (x : TelemetrySample F) (now_s : ℤ) (p : PlannerProposal)
      → IsController c
      → c.planner.propose x c.state c.config ≡ ok p
      → (i : AuthorizedIntent) × (c' : Controller F) × (decide codec c x now_s ≡ ok (i, c'))
        × IsDecided c x now_s p i c'
  unfolding decide apply_intent
  decide-IsDecided c x now_s p v proposed =
      let (accepts, verifies) =
        append-verify codec c.journal (intent_of c x now_s p) (rw v.in_step refl) v.chained in
      let (counts, counts_eq, once, countable) =
        count-IsCountedOnce (classify_intervention c.state p (adjudication_of c x now_s p))
          c.intervention_counts v.countable in
      (
        intent_of c x now_s p,
        decided c x now_s p counts,
        rw (proposed, counts_eq, accepts) refl,
        record {
          adjudicated = safe;
          authorized = refl;
          entered = refl;
          commands = (refl, refl);
          duty_change =
              ground (arith, bool_eq.beq_iff (adjudication_of c x now_s p).duty_on c.state.duty_on);
          standby_change =
              ground (
                arith,
                bool_eq.beq_iff (adjudication_of c x now_s p).standby_on c.state.standby_on,
              );
          sequence = refl;
          counted = once;
          same_config = refl;
          same_planner = refl;
          invariant = record {
            in_step = refl;
            chained = verifies;
            paired = safe.paired v.paired;
            countable = countable;
          };
        },
      )
    where
      safe : IsAdjudicated c.config p x c.state now_s (adjudication_of c x now_s p)
      safe = authorize-IsAdjudicated c.config p x c.state now_s
