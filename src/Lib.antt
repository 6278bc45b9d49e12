-- ===== src/Lib.antt =====
-- Three case studies of the repository as a library: the study code that decides, checks and keeps
-- state, and what makes it correct.
--
-- CacheForge (case-studies/cacheforge) simulates a cache of blocks that serves requests. A policy
-- proposes which blocks to evict, the authority checks every proposal and falls back on the least
-- recently used blocks, and the simulator carries a request through its prompt blocks, its
-- generated blocks, its sliding windows and the release of what it owns.
--   CacheForge/Model        src/cacheforge/model.py: `GroupSpec`, `RequestTrace`, `CacheBlock`,
--                           `StudyMetrics`, and the exceptions of the package as a data type
--   CacheForge/State        `CacheState` of model.py: `__post_init__`, `tick`, `validate`; State/Valid
--                           holds the invariant, State/Checked what `validate` accepts
--   CacheForge/Policies     src/cacheforge/policies.py; Policies/Generated is
--                           machine/generated_policy.py with its generator tools/generate_policy.py,
--                           Policies/Order what a policy that sorts proposes
--   CacheForge/Authority    src/cacheforge/authority.py, `AllocationAuthority`
--   CacheForge/Simulator    src/cacheforge/simulator.py, `CacheSimulator`: Blocks and Sliding hold
--                           the changes of state, the other children the proofs
--   CacheForge/Scenarios    src/cacheforge/scenarios.py, the declared scenarios
--   CacheForge/Examples     runs on small inputs, and the theorems at concrete caches
-- A dictionary is a list of pairs in the order of insertion (Dict), a set a list without repeats
-- (Common/Sets), a Python integer an `ℤ` over the native numbers (Common/Int), and a method that
-- raises returns a `Result` (Common/Result). Objects that Python mutates are passed on explicitly;
-- a computation that raises gives no state. No loop of CacheForge needs fuel: each runs over a
-- list or over a number that it counts down.
--
-- Remote water control (case-studies/remote-water-control) controls the pumps of a tank. A planner
-- proposes commands from telemetry, the safety kernel decides, the controller enters the authorized
-- intent in a hash-chained journal and applies it, and a plant simulates the tank.
--   Water/Model             src/water_control/model.py
--   Water/Safety            src/water_control/safety.py, `SafetyKernel`
--   Water/Journal           src/water_control/journal.py, `IntentJournal`, and `as_dict` of an intent
--   Water/Checkpoint        src/water_control/checkpoint.py, encoding and decoding
--   Water/Planner           src/water_control/planner.py and machine/generated_planner.py
--   Water/Controller        src/water_control/controller.py, `decide` and what it calls;
--                           Controller/Restore is `checkpoint_payload` and `restore`
--   Water/Plant             `Plant` of src/water_control/simulator.py
--   Water/Simulation        `run_scenario` of src/water_control/simulator.py: its loop, for a
--                           scenario without a restart
--   Water/Scenarios         src/water_control/scenarios.py, the declared scenarios
--   Water/Examples          runs on small inputs, and the theorems at concrete values
-- A planner is any function of the protocol, which may raise. The search of `bisect_right` runs on
-- fuel, the length of the list of bands, and every step of it shortens the interval. The loop of a scenario runs on
-- fuel, the duration in seconds, which is enough for steps of a second or more.
--
-- Ravel (case-studies/ravel) evaluates recorded trials of a model against a preregistration. The
-- evaluator tools/ravel_0_5_evaluator.py validates the preregistration and each raw trial, derives
-- the metrics of the trial, applies the gates to them, and counts what passed.
--   Ravel/Values            the `require_…` functions and `_validate_hex`; Values/Checked holds what a
--                           value is that passed, Values/Settles the computations that end in no
--                           exception but `EvaluationError` and `OverflowError`
--   Ravel/Arithmetic        division, `float` and `math.sqrt` with the exceptions of Python;
--                           Arithmetic/Partial says when they raise no others than an overflow
--   Ravel/Observations      `validate_eval`, `validate_plan`, `_validate_replay`, `_validate_topology`,
--                           `_validate_variant`
--   Ravel/Seeds             `_mix64`, `_derive_validation_seed`, `DATASET_SEED_XORS`
--   Ravel/Preregistration   `validate_preregistration` and `_validate_gate_list`: Trials the loop over
--                           the trials, Rules the other parts, the other children the proofs
--   Ravel/Trials            `validate_trial`; the children hold the proofs
--   Ravel/Metrics           `derive_eval`, `derive_plan`, `_headroom_improvement`; Metrics/Trial is
--                           `derive_trial_metrics`
--   Ravel/Gates             `_apply_gate`, `_aggregate`, `_pareto_relation`
--   Ravel/Evaluation        `evaluate`
--   Ravel/Records           a small study as JSON, and Ravel/Examples the theorems at it
-- A function that raises in the middle is split where its parts end, and a loop is a recursion over
-- the list that it walks. A record of the JSON input is a list of keys and values. An integer is compared with a float exactly,
-- and an operation on floats that raises in Python returns an option in Python/Floats.
--
-- Python is what the studies share: Python/Floats takes floats as a parameter with the comparisons
-- and operations that are used, Python/Json has JSON values, with `canonical_bytes` and SHA-256 as a
-- parameter, Python/Sorted what is read back of a value written with sorted keys, Python/Equality the `==` on them, Python/Hex bytes and digits, Python/Tenths a stand-in
-- for floats in runs.
--
-- Not modelled: files, hashing and JSON themselves, the random scenarios (random.Random), the
-- rendering of generated tables as text, process execution, and the other studies of the
-- repository. In CacheForge: the rounded ratios of `StudyMetrics.to_json`, and the
-- snapshots and digests. In the water control study: the files of checkpoints, and the restart and the
-- result of a scenario run. In Ravel: reading and writing of files, the means and deviations of the
-- statistics module.
pub mod Common
pub mod Dict
pub mod Python
pub mod CacheForge
pub mod Water
pub mod Ravel
