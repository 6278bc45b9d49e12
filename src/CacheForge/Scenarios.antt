-- ===== src/CacheForge/Scenarios.antt =====
-- cacheforge/scenarios.py: the groups and the declared scenarios of the development study. The
-- requests go through the checked constructor of `RequestTrace`, so that a scenario may fail.
use mncs_reference_studies.Common.{
  ℕ, zero, suc, ◌+◌, ◌%◌, String, Option, none, some, List, [], ◌∷◌, if◌then◌else◌, ◌==◌, nat_eq,
  take,
}
use mncs_reference_studies.Common.Int.{ℤ, pos}
use mncs_reference_studies.Common.Result.{ok, ◌>>=◌}
use mncs_reference_studies.Common.Text.{decimal, ◌<>◌}
use mncs_reference_studies.CacheForge.Model.{Outcome, GroupSpec, RequestTrace, request_trace}

abbrev pub default_groups : List GroupSpec
default_groups =
    record { name = "full"; mode = "full"; window_blocks = none }
    ∷ record { name = "sliding"; mode = "sliding"; window_blocks = some 2 }
    ∷ []

pub record Scenario : Type 0 where
  pub scenario_id : String
  pub capacity_blocks : ℕ
  pub requests : List RequestTrace
  pub purpose : String

unfoldable pub shared_request : String → String → String → ℕ → Option ℕ → Outcome RequestTrace
shared_request request_id system user generated cancel_after =
    request_trace request_id
      (("sys:" <> (system <> ":0"))
        ∷ ("sys:" <> (system <> ":1"))
        ∷ ("sys:" <> (system <> ":2"))
        ∷ ("user:" <> (user <> ":0"))
        ∷ ("user:" <> (user <> ":1"))
        ∷ [])
      (pos generated) (pos 1) (stop cancel_after)
  where
    stop : Option ℕ → Option ℤ
    stop none = none
    stop (some n) = some (pos n)

-- `tuple(request(index) for index in range(first, first + count))`
unfoldable pub tabulate : (ℕ → Outcome RequestTrace) → ℕ → ℕ → Outcome (List RequestTrace)
tabulate request first zero = ok []
tabulate request first (suc n) = do
  r ← request first
  rs ← tabulate request (first + 1) n
  ok (r ∷ rs)

unfoldable pub burst : ℕ → Outcome RequestTrace
unfolding shared_request request_trace
burst i = shared_request ("burst-" <> decimal i) "assistant" ("u" <> decimal i) 4 none

unfoldable pub alternating : ℕ → Outcome RequestTrace
unfolding shared_request request_trace
alternating i =
    shared_request ("tenant-" <> decimal i) (if i % 2 == 0 then "coding" else "research")
      ("tenant-" <> decimal i) 3 none

unfoldable pub cancellation : ℕ → Outcome RequestTrace
unfolding shared_request request_trace
cancellation i =
    shared_request ("cancel-" <> decimal i) "assistant" ("cancel-user-" <> decimal i) 5
      (if i % 3 == 0 then some 1 else none)

-- `tuple(f"unique:{index}:{block}" for block in range(first, first + count))`
unfoldable pub unique_blocks : ℕ → ℕ → ℕ → List String
unique_blocks i first zero = []
unique_blocks i first (suc n) =
    ("unique:" <> (decimal i <> (":" <> decimal first))) ∷ unique_blocks i (first + 1) n

unfoldable pub unique : ℕ → Outcome RequestTrace
unfolding request_trace unique_blocks
unique i = request_trace ("unique-" <> decimal i) (unique_blocks i 0 5) (pos 2) (pos 1) none

abbrev scenario : String → ℕ → String → Outcome (List RequestTrace) → Outcome Scenario
scenario name capacity purpose requests = requests >>= λ rs.
    ok (record { scenario_id = name; capacity_blocks = capacity; requests = rs; purpose = purpose })

unfoldable pub development_scenarios : Outcome (List Scenario)
unfolding tabulate burst alternating cancellation unique
development_scenarios = do
  a ←
      scenario "shared-prefix-burst" 24 "repeated system prompt under tail pressure"
        (tabulate burst 0 12)
  b ← scenario "alternating-tenants" 28 "two reusable tenant prefixes" (tabulate alternating 0 16)
  c ←
      scenario "cancellation-pressure" 24 "atomic release during cancellation"
        (tabulate cancellation 0 9)
  d ←
      scenario "low-reuse-control" 24 "control workload without reusable prefixes"
        (tabulate unique 0 10)
  ok (a ∷ b ∷ c ∷ d ∷ [])

unfoldable pub smoke_scenarios : Outcome (List Scenario)
unfolding development_scenarios
smoke_scenarios = development_scenarios >>= λ ss. ok (take 1 ss)
