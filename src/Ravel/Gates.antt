-- ===== src/Ravel/Gates.antt =====
-- `_apply_gate`, `_aggregate` and `_pareto_relation`: what is decided from the metrics of a trial.
pub mod Dominance
use mncs_reference_studies.Common.{
  ℕ, suc, ◌+◌, ◌-◌, ◌/◌, ◌%◌, String, Bool, true, false, ◌&&◌, ◌||◌, not, Option, none, some, List,
  [], ◌∷◌, ◌==◌, string_eq, nat_eq, length, get_or, map, if◌then◌else◌,
}
use mncs_reference_studies.Common.Int.{ℤ, pos, leb_ℤ, ltb_ℤ}
use mncs_reference_studies.Common.Result.{ok, raise, ◌>>=◌, ◌>>◌}
use mncs_reference_studies.Common.Sorting.{sort_by}
use mncs_reference_studies.Common.Text.{◌<>◌}
use mncs_reference_studies.Dict.{lookup}
use mncs_reference_studies.Python.Floats.{Floats, min_float, max_float}
use mncs_reference_studies.Python.Json.{Json, null, text, flag, int, number, array, object}
use mncs_reference_studies.Python.Equality.{Number, number_of, json_eq}
use mncs_reference_studies.Python.Equality
use mncs_reference_studies.Ravel.Arithmetic.{to_float}
use mncs_reference_studies.Ravel.Values.{
  Outcome, Object, evaluation_error, type_error, value_error, get,
}
use mncs_reference_studies.Ravel.Metrics.Trial.{Metric, Metrics, truth, whole, real}

-- The observed value as a JSON value, for comparison with the declared one.
abbrev pub metric_json : {N : Type 0} → Metric N → Json N
metric_json (truth b) = flag b
metric_json (whole n) = int n
metric_json (real x) = number x

module _ (F : Floats) where
  abbrev pub le_number : Number F.Float → Number F.Float → Bool
  le_number (Equality.whole m) (Equality.whole n) = leb_ℤ m n
  le_number (Equality.real x) (Equality.real y) = F.le x y
  le_number (Equality.whole m) (Equality.real y) = F.int_le m y
  le_number (Equality.real x) (Equality.whole n) = F.le_int x n

  -- `a <= b`, where Python refuses to order anything but numbers with a number.
  abbrev pub le_scalars : Option (Number F.Float) → Option (Number F.Float) → Outcome Bool
  le_scalars (some a) (some b) = ok (le_number a b)
  le_scalars _ _ = raise type_error

  -- `metrics[name]` for the name that a gate gives.
  abbrev pub known_metric : String → Option (Metric F.Float) → Outcome (Metric F.Float)
  known_metric name none = raise (evaluation_error ("gate references unknown metric: " <> name))
  known_metric name (some m) = ok m

  abbrev pub named_metric : Json F.Float → Metrics F → Outcome (Metric F.Float)
  named_metric (text name) metrics = known_metric name (lookup name metrics)
  named_metric (array xs) metrics = raise type_error
  named_metric (object fs) metrics = raise type_error
  named_metric other metrics = raise (evaluation_error "gate references unknown metric")

  unfoldable pub passes : Json F.Float → Metric F.Float → Json F.Float → Outcome Bool
  passes (text operator) observed expected =
      if operator == "ge"
      then le_scalars (number_of expected) (number_of (metric_json observed))
      else if operator == "le"
      then le_scalars (number_of (metric_json observed)) (number_of expected)
      else ok (json_eq F (metric_json observed) expected)
  passes operator observed expected = ok (json_eq F (metric_json observed) expected)

  pub record GateResult : Type 0 where
    pub gate_id : Json F.Float
    pub metric : Json F.Float
    pub operator : Json F.Float
    pub threshold : Json F.Float
    pub observed : Metric F.Float
    pub pass : Bool
    pub rationale : Json F.Float

  unfoldable pub apply_gate : Object F.Float → Metrics F → Outcome GateResult
  apply_gate gate metrics = do
    metric_name ← get "metric" gate
    observed ← named_metric metric_name metrics
    expected ← get "value" gate
    operator ← get "operator" gate
    passed ← passes operator observed expected
    identity ← get "gate_id" gate
    rationale ← get "rationale" gate
    ok (record {
      gate_id = identity;
      metric = metric_name;
      operator = operator;
      threshold = expected;
      observed = observed;
      pass = passed;
      rationale = rationale;
    })

  -- The metrics on which a candidate and a variant are compared.
  pub record Quality : Type 0 where
    pub drift_accuracy : Number F.Float
    pub retention_accuracy : Number F.Float
    pub planning_exact_state_rate : Number F.Float
    pub planning_belief_set_rate : Number F.Float
    pub reconstruction_rmse : Number F.Float
    pub prediction_rmse : Number F.Float
    pub expert_evaluations : Number F.Float
    pub training_evaluations : Number F.Float
    pub expert_count : Number F.Float
    pub checkpoint_size_bytes : Number F.Float

  abbrev pub maximize : Quality → List (Number F.Float)
  maximize q =
      q.drift_accuracy ∷ q.retention_accuracy ∷ q.planning_exact_state_rate
      ∷ q.planning_belief_set_rate ∷ []

  abbrev pub minimize : Quality → List (Number F.Float)
  minimize q =
      q.reconstruction_rmse ∷ q.prediction_rmse ∷ q.expert_evaluations ∷ q.training_evaluations
      ∷ q.expert_count ∷ q.checkpoint_size_bytes ∷ []

  abbrev pub lt_number : Number F.Float → Number F.Float → Bool
  lt_number (Equality.whole m) (Equality.whole n) = ltb_ℤ m n
  lt_number (Equality.real x) (Equality.real y) = F.lt x y
  lt_number (Equality.whole m) (Equality.real y) = F.int_lt m y
  lt_number (Equality.real x) (Equality.whole n) = F.lt_int x n

  -- A loop `flag |= first[metric] < second[metric]`.
  unfoldable pub any_below : List (Number F.Float) → List (Number F.Float) → Bool
  any_below [] bs = false
  any_below (a ∷ as') [] = false
  any_below (a ∷ as') (b ∷ bs) = lt_number a b || any_below as' bs

  -- `first` is better than `second` somewhere.
  abbrev pub is_better : Quality → Quality → Bool
  is_better first second =
      any_below (maximize second) (maximize first) || any_below (minimize first) (minimize second)

  pub data Relation : Type 0 where
    candidate_dominates : Relation
    variant_dominates : Relation
    equivalent : Relation
    mixed : Relation

  abbrev pub relation_of : Bool → Bool → Relation
  relation_of true false = candidate_dominates
  relation_of false true = variant_dominates
  relation_of false false = equivalent
  relation_of true true = mixed

  -- `_pareto_relation`
  unfoldable pub pareto_relation : Quality → Quality → Relation
  pareto_relation candidate variant =
      relation_of (is_better candidate variant) (is_better variant candidate)

-- `fmean` and `pstdev` of the statistics module, which are not modelled; both may raise, as on a sum
-- that no float holds.
pub record Statistics (F : Floats) : Type 0 where
  pub mean : List F.Float → Outcome F.Float
  pub deviation : List F.Float → Outcome F.Float

pub record Aggregate (F : Floats) : Type 0 where
  pub minimum : F.Float
  pub median : F.Float
  pub maximum : F.Float
  pub arithmetic_mean : F.Float
  pub population_standard_deviation : F.Float

module _ (F : Floats) where
  unfoldable pub least : F.Float → List F.Float → F.Float
  least x [] = x
  least x (y ∷ ys) = least (min_float F x y) ys

  unfoldable pub greatest : F.Float → List F.Float → F.Float
  greatest x [] = x
  greatest x (y ∷ ys) = greatest (max_float F x y) ys

  -- `statistics.median` of a sorted list that is not empty
  unfoldable pub middle : List F.Float → F.Float → F.Float
  middle xs default =
      let half = length xs / 2 in
      if length xs % 2 == 1
      then get_or xs half default
      else F.div (F.add (get_or xs (half - 1) default) (get_or xs half default)) (F.tenths 20)

  -- `float(value)`
  abbrev pub float_number : Number F.Float → Outcome F.Float
  float_number (Equality.whole n) = to_float F n
  float_number (Equality.real x) = ok x

  unfoldable pub float_numbers : List (Number F.Float) → Outcome (List F.Float)
  float_numbers [] = ok []
  float_numbers (n ∷ ns) = do x ← float_number n; xs ← float_numbers ns; ok (x ∷ xs)

  -- The dictionary of `_aggregate`; `min` of an empty list raises.
  unfoldable pub summarize : Statistics F → List F.Float → Outcome (Aggregate F)
  summarize stats [] = raise value_error
  summarize stats (x ∷ xs) = do
    mean ← stats.mean (x ∷ xs)
    deviation ← stats.deviation (x ∷ xs)
    ok (record {
      minimum = least x xs;
      median = middle (sort_by F.le (x ∷ xs)) x;
      maximum = greatest x xs;
      arithmetic_mean = mean;
      population_standard_deviation = deviation;
    })

  -- `_aggregate`
  unfoldable pub aggregate : Statistics F → List (Number F.Float) → Outcome (Aggregate F)
  aggregate stats values = float_numbers values >>= summarize stats
