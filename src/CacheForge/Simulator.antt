-- ===== src/CacheForge/Simulator.antt =====
-- cacheforge/simulator.py: `CacheSimulator`. A request walks through its prompt blocks and its
-- generated blocks; each access hits or misses, and a miss may evict. `self` is passed along.
pub mod Blocks
pub mod Sliding
pub mod Preserve
pub mod Admit
pub mod Accesses
pub mod Ownership
pub mod Steps
pub mod Raises
pub mod Totals
pub mod Expiry
pub mod Requests
pub mod Runs
use mncs_reference_studies.Common.{
  ℕ, zero, suc, ◌+◌, max, String, Bool, true, false, not, Option, none, some, List, [], ◌∷◌, leb,
  if◌then◌else◌, ◌==◌, string_eq, pair_eq, length, nat_eq,
}
use mncs_reference_studies.Common.Int.{ℤ, int_eq}
use mncs_reference_studies.Common.Result.{Result, ok, raise, ◌>>=◌, ◌>>◌, require}
use mncs_reference_studies.Common.Sets.{add}
use mncs_reference_studies.Common.Text.{decimal, ◌<>◌, starts_with}
use mncs_reference_studies.Dict.{lookup}
use mncs_reference_studies.CacheForge.Model.{
  Outcome, GroupSpec, RequestTrace, CacheBlock, StudyMetrics, no_metrics, is_empty, key_error,
  live_eviction, no_groups, policy_mismatch, state_missing, identity,
}
use mncs_reference_studies.CacheForge.State.{CacheState, cache_state, tick, validate}
use mncs_reference_studies.CacheForge.Policies.{EvictionPolicy}
use mncs_reference_studies.CacheForge.Authority.{
  AllocationAuthority, default_authority, authorize_eviction,
}
use Blocks.{reuse, remove, store}
use Sliding.{Windows, new_windows, advance_sliding, disown_all}

pub record Simulator : Type 0 where
  pub groups : List GroupSpec
  pub policy : EvictionPolicy
  pub authority : AllocationAuthority
  pub state : CacheState
  pub metrics : StudyMetrics

-- The constructor.
unfoldable pub simulator : List GroupSpec → ℤ → EvictionPolicy → Outcome Simulator
simulator groups capacity policy = do
  require (not (is_empty groups)) no_groups
  s ← cache_state capacity (ℤ.pos 0) (ℤ.pos 0)
  ok (record {
    groups = groups;
    policy = policy;
    authority = default_authority;
    state = s;
    metrics = no_metrics;
  })

abbrev pub Progress : Type 0
Progress = CacheState × StudyMetrics

abbrev pub one_eviction : StudyMetrics → StudyMetrics
one_eviction m = record m { evictions = m.evictions + 1 }

abbrev is_some {ℓ} : {A : Type ℓ} → Option A → Bool
is_some none = false
is_some (some a) = true

abbrev evict_found : Option CacheBlock → ℤ → Progress → Outcome Progress
evict_found none id (s, m) = raise key_error
evict_found (some b) id (s, m) = do
  require (is_empty b.owners) live_eviction
  require (is_some (lookup (identity b) s.key_index)) key_error
  ok (remove s id b, one_eviction m)

-- `_evict`
unfoldable pub evict : ℤ → Progress → Outcome Progress
evict id (s, m) = evict_found (lookup id s.blocks) id (s, m)

unfoldable pub evict_all : List ℤ → Progress → Outcome Progress
evict_all [] p = ok p
evict_all (id ∷ rest) p = do p' ← evict id p; evict_all rest p'

-- The part of `_access` that makes room for a new block.
unfoldable pub make_room : AllocationAuthority → EvictionPolicy → Progress → Outcome Progress
make_room authority policy (s, m) =
    let evicted = authorize_eviction authority s policy 1 m >>= λ r. evict_all r.0 (s, r.1) in
    if leb s.capacity_blocks (length s.blocks) then evicted else ok (s, m)

abbrev pub one_miss : StudyMetrics → StudyMetrics
one_miss m = record m { misses = m.misses + 1; recomputed_blocks = m.recomputed_blocks + 1 }

abbrev pub one_hit : StudyMetrics → StudyMetrics
one_hit m = record m { hits = m.hits + 1 }

abbrev pub raise_peak : StudyMetrics → ℕ → StudyMetrics
raise_peak m n = record m { peak_resident_blocks = max m.peak_resident_blocks n }

-- What is asked for in one access.
pub record Access : Type 0 where
  pub request_id : String
  pub group : String
  pub key : String
  pub kind : String
  pub is_shared : Bool

-- The branch of `_access` for a known identity.
abbrev pub hit : Simulator → Access → ℤ → Option CacheBlock → Outcome (ℤ × Simulator)
hit sim a id none = raise key_error
hit sim a id (some b) =
    ok (id, record sim { state = reuse sim.state id a.request_id; metrics = one_hit sim.metrics })

-- The branch of `_access` for a new identity.
abbrev pub miss : Simulator → Access → Outcome (ℤ × Simulator)
miss sim a = do
  (s, m) ← make_room sim.authority sim.policy (sim.state, one_miss sim.metrics)
  let s' = store s a.request_id a.group a.key a.kind a.is_shared
  ok (s.next_block_id, record sim { state = s'; metrics = raise_peak m (length s'.blocks) })

abbrev pub find : Simulator → Access → Option ℤ → Outcome (ℤ × Simulator)
find sim a (some id) = hit sim a id (lookup id sim.state.blocks)
find sim a none = miss sim a

-- `_access`: the block's id beside the new simulator.
unfoldable pub access : Simulator → Access → Outcome (ℤ × Simulator)
access sim a =
    let ticked = record sim { state = tick sim.state } in
    find ticked a (lookup (a.group, a.key) ticked.state.key_index)

-- The local variables of `process`.
pub record Work : Type 0 where
  pub sim : Simulator
  pub owned : List ℤ
  pub windows : Windows

-- The body of the two inner loops.
unfoldable pub touch : Work → Access → GroupSpec → Outcome Work
touch w a group = do
  (id, sim) ← access w.sim (record a { group = group.name })
  (s, owned, windows) ← advance_sliding group id a.request_id sim.state (add id w.owned) w.windows
  ok (record { sim = record sim { state = s }; owned = owned; windows = windows })

unfoldable pub touch_groups : Work → Access → List GroupSpec → Outcome Work
touch_groups w a [] = ok w
touch_groups w a (g ∷ gs) = do w' ← touch w a g; touch_groups w' a gs

abbrev pub prompt_access : String → String → Access
prompt_access request_id key = record {
  request_id = request_id;
  group = "";
  key = key;
  kind = "prompt";
  is_shared = starts_with key "sys:";
}

abbrev pub generated_access : String → ℕ → Access
generated_access request_id index = record {
  request_id = request_id;
  group = "";
  key = "gen:" <> (request_id <> (":" <> decimal index));
  kind = "generated";
  is_shared = false;
}

unfoldable pub prompt_loop : Work → List GroupSpec → String → List String → Outcome Work
prompt_loop w groups request_id [] = ok w
prompt_loop w groups request_id (key ∷ keys) = do
  w' ← touch_groups w (prompt_access request_id key) groups
  prompt_loop w' groups request_id keys

abbrev pub is_stop : Option ℕ → ℕ → Bool
is_stop none index = false
is_stop (some stop) index = stop == index

abbrev pub cancelled : Work → Work
cancelled w = record w {
  sim = record (w.sim) {
    metrics = record (w.sim.metrics) { cancelled_requests = w.sim.metrics.cancelled_requests + 1 };
  };
}

-- `rest` rounds of the loop are left, and the next one has the given index. After the last round
-- the `else` branch of the loop runs.
unfoldable pub generated_loop : Work → List GroupSpec → String → Option ℕ → ℕ → ℕ → Outcome Work
generated_loop w groups request_id stop index zero =
    ok (if is_stop stop index then cancelled w else w)
generated_loop w groups request_id stop index (suc rest) =
    let round = touch_groups w (generated_access request_id index) groups >>= λ w'.
    generated_loop w' groups request_id stop (index + 1) rest in
    if is_stop stop index then ok (cancelled w) else round

abbrev pub start_work : Simulator → Work
start_work sim = record {
  sim = record sim { metrics = record (sim.metrics) { requests = sim.metrics.requests + 1 } };
  owned = [];
  windows = new_windows sim.groups;
}

unfoldable pub process : Simulator → RequestTrace → Outcome Simulator
process sim r = do
  w ← prompt_loop (start_work sim) sim.groups r.request_id r.prompt_blocks
  w' ← generated_loop w sim.groups r.request_id r.cancel_after_generated 0 r.generated_blocks
  let s = disown_all r.request_id w'.owned w'.sim.state
  validate s
  ok (record (w'.sim) { state = s })

unfoldable pub process_all : Simulator → List RequestTrace → Outcome Simulator
process_all sim [] = ok sim
process_all sim (r ∷ rs) = do sim' ← process sim r; process_all sim' rs

-- `run`: the metrics are those of the simulator that it returns.
unfoldable pub run : Simulator → List RequestTrace → Outcome Simulator
run sim rs = do sim' ← process_all sim rs; validate sim'.state; ok sim'
