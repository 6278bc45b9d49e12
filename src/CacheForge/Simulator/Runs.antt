-- ===== src/CacheForge/Simulator/Runs.antt =====
-- A whole request, and a whole run, on a valid idle cache, under any policy.
use mncs_reference_studies.Common.{
  ℕ, zero, suc, String, ◌≡◌, refl, sym, ◌∙◌, true, inl, inr, subst, Bool-cases, some, arith,
  string_eq, List, [], ◌∷◌, ◌==◌, true_ne_false, none_ne_some, if◌then◌else◌, ◌<◌,
}
use mncs_reference_studies.Common.Int.{ℤ, pos, negsuc, int_eq}
use mncs_reference_studies.Common.Result.{ok_inj, ok}
use mncs_reference_studies.Common.Sets.{contains, contains_nil, discard, contains_of_discard}
use mncs_reference_studies.Common.Sorting.{All}
use mncs_reference_studies.Dict.{lookup, insert, lookup-insert, lookup-insert_self}
use mncs_reference_studies.CacheForge.Model.{GroupSpec, RequestTrace, CacheBlock}
use mncs_reference_studies.CacheForge.State.{CacheState, cache_state}
use mncs_reference_studies.CacheForge.Policies.{EvictionPolicy}
use mncs_reference_studies.CacheForge.State.Valid.{IsValid, validate_of_IsValid}
use mncs_reference_studies.CacheForge.Simulator.Blocks.{disown}
use mncs_reference_studies.CacheForge.Simulator.Preserve.{disown-IsValid}
use mncs_reference_studies.CacheForge.Simulator.Ownership.{Held, HeldBy, IsIdle, disown-HeldBy}
use mncs_reference_studies.CacheForge.Simulator.Sliding.{
  Windows, with_window, windows_from, new_windows, disown_all,
}
use mncs_reference_studies.CacheForge.Simulator.Raises.{Safe, Safe-bind}
use mncs_reference_studies.CacheForge.Simulator.Expiry.{IsKept, IsReady}
use mncs_reference_studies.CacheForge.Simulator.Requests.{
  IsRunning, prompt_loop-Safe, generated_loop-Safe,
}
use mncs_reference_studies.CacheForge.Simulator.{
  Simulator, simulator, prompt_loop, generated_loop, start_work, process, process_all, run,
}

HeldBy-mono :
    (rid : String) (xs ys : List ℤ) (s : CacheState)
    → ((i : ℤ) → contains i xs ≡ true → contains i ys ≡ true)
    → HeldBy rid xs s
    → HeldBy rid ys s
HeldBy-mono rid xs ys s sub h i b found = go (h i b found)
  where
    go : Held rid xs i b → Held rid ys i b
    go (inl e) = inl e
    go (inr (e, c)) = inr (e, sub i c)

disown_all-IsIdle :
    (rid : String) (owned : List ℤ) (s : CacheState)
    → IsKept rid s owned
    → IsValid (disown_all rid owned s) × IsIdle (disown_all rid owned s)
unfolding disown_all
disown_all-IsIdle rid [] s k = (k.valid, λ i b found. go i b (k.held i b found))
  where
    go : (i : ℤ) (b : CacheBlock) → Held rid [] i b → b.owners ≡ []
    go i b (inl e) = e
    go i b (inr (e, c)) = absurd (true_ne_false (sym c ∙ contains_nil i))
disown_all-IsIdle rid (id ∷ rest) s k = disown_all-IsIdle rid rest (disown rid id s) (record {
  valid = disown-IsValid rid id s k.valid;
  held =
      HeldBy-mono rid (discard id (id ∷ rest)) rest (disown rid id s) (λ i c. kept i c)
        (disown-HeldBy rid (id ∷ rest) s id k.held);
})
  where
    kept : (i : ℤ) → contains i (discard id (id ∷ rest)) ≡ true → contains i rest ≡ true
    kept i c = contains_of_discard id i rest c

-- A sliding group has a limit, as the constructor sees to.
abbrev pub IsGroup : GroupSpec → Type 0
IsGroup g =
    (g.mode == "sliding") ≡ true → (limit : ℕ) × (g.window_blocks ≡ some limit) × (0 < limit)

abbrev HasWindow : Windows → GroupSpec → Type 0
HasWindow ws g = (g.mode == "sliding") ≡ true → (w : List ℤ) × (lookup g.name ws ≡ some w)

HasWindow-insert :
    (ws : Windows) (name : String) (g : GroupSpec)
    → HasWindow ws g
    → HasWindow (insert name [] ws) g
HasWindow-insert ws name g h sliding =
    let (w, found) = h sliding in
    let empty : List ℤ = [] in
    ((if name == g.name then empty else w), ground (arith, lookup-insert name g.name empty ws))

with_window-HasWindow : (ws : Windows) (g : GroupSpec) → HasWindow (with_window ws g) g
unfolding with_window
with_window-HasWindow ws g sliding =
    ([], rw sliding (lookup-insert_self g.name (let e : List ℤ = [] in e) ws))

with_window-keeps :
    (ws : Windows) (x g : GroupSpec) → HasWindow ws g → HasWindow (with_window ws x) g
unfolding with_window
with_window-keeps ws x g h = elim (Bool-cases (x.mode == "sliding")) [
  | inl e ↦ rw e (HasWindow-insert ws x.name g h)
  | inr e ↦ rw e h
]

windows_from-keeps :
    (ws : Windows) (gs : List GroupSpec) (g : GroupSpec)
    → HasWindow ws g
    → HasWindow (windows_from ws gs) g
unfolding windows_from
windows_from-keeps ws [] g h = h
windows_from-keeps ws (x ∷ gs) g h =
    windows_from-keeps (with_window ws x) gs g (with_window-keeps ws x g h)

new_windows-HasWindow :
    (ws : Windows) (gs : List GroupSpec) → All (HasWindow (windows_from ws gs)) gs
unfolding windows_from
new_windows-HasWindow ws [] = tt
new_windows-HasWindow ws (x ∷ gs) = (
  windows_from-keeps (with_window ws x) gs x (with_window-HasWindow ws x),
  new_windows-HasWindow (with_window ws x) gs,
)

IsReady-of_groups :
    (ws : Windows) (gs : List GroupSpec)
    → All IsGroup gs
    → All (HasWindow ws) gs
    → All (IsReady ws) gs
IsReady-of_groups ws [] g h = tt
IsReady-of_groups ws (x ∷ gs) g h = (
  λ sliding.
      let (limit, e, _) = g.0 sliding in let (w, found) = h.0 sliding in (limit, e, w, found),
  IsReady-of_groups ws gs g.1 h.1,
)

-- A cache between requests: valid, and no block owned.
pub record IsRested (s : CacheState) : Type 0 where
  pub valid : IsValid s
  pub idle : IsIdle s

-- A simulator between requests, with the groups that it was made with.
pub record IsServing (groups : List GroupSpec) (sim : Simulator) : Type 0 where
  pub rested : IsRested sim.state
  pub same_groups : sim.groups ≡ groups

-- Under any policy, a request on a valid idle cache either raises that no valid eviction plan is
-- available, or returns with the cache valid and idle again and the groups unchanged: its own
-- `validate` never fails, no other exception escapes, and every block the request owned is
-- released, cancelled or not.
pub process-IsServing :
    (sim : Simulator) (r : RequestTrace)
    → All IsGroup sim.groups
    → IsRested sim.state
    → Safe (IsServing sim.groups) (process sim r)
unfolding process
process-IsServing sim r groups rested =
    Safe-bind (IsRunning rid sim.groups) (IsServing sim.groups)
      (prompt_loop (start_work sim) sim.groups rid r.prompt_blocks) _
      (prompt_loop-Safe rid sim.groups (start_work sim) r.prompt_blocks started)
      λ w running.
        Safe-bind (IsRunning rid sim.groups) (IsServing sim.groups)
          (generated_loop w sim.groups rid r.cancel_after_generated 0 r.generated_blocks) _
          (generated_loop-Safe rid sim.groups w r.cancel_after_generated 0 r.generated_blocks
            running)
          λ w' running'.
            let (v, idle) = disown_all-IsIdle rid w'.owned w'.sim.state running'.kept in
            rw (validate_of_IsValid (disown_all rid w'.owned w'.sim.state) v) (record {
              rested = record { valid = v; idle = idle };
              same_groups = running'.same_groups;
            })
  where
    rid : String
    rid = r.request_id

    started : IsRunning rid sim.groups (start_work sim)
    started = record {
      kept = record { valid = rested.valid; held = λ i b found. inl (rested.idle i b found) };
      ready =
          IsReady-of_groups (new_windows sim.groups) sim.groups groups
            (new_windows-HasWindow [] sim.groups);
      same_groups = refl;
    }

process_all-IsServing :
    (groups : List GroupSpec) (sim : Simulator) (rs : List RequestTrace)
    → All IsGroup groups
    → IsServing groups sim
    → Safe (IsServing groups) (process_all sim rs)
unfolding process_all
process_all-IsServing groups sim [] good serving = serving
process_all-IsServing groups sim (r ∷ rs) good serving =
    Safe-bind (IsServing groups) (IsServing groups) (process sim r) _
      (subst (λ gs. Safe (IsServing gs) (process sim r)) serving.same_groups
        (process-IsServing sim r (subst (All IsGroup) (sym serving.same_groups) good)
          serving.rested))
      (λ sim' serving'. process_all-IsServing groups sim' rs good serving')

-- A new simulator serves: its cache is empty, valid and idle.
simulator-IsServing :
    (groups : List GroupSpec) (capacity : ℤ) (policy : EvictionPolicy) (sim : Simulator)
    → simulator groups capacity policy ≡ ok sim
    → IsServing groups sim
unfolding simulator cache_state lookup
simulator-IsServing groups (negsuc n) policy sim h = absurd (ground arith)
simulator-IsServing groups (pos zero) policy sim h = absurd (ground arith)
simulator-IsServing [] (pos (suc n)) policy sim h = absurd (ground arith)
simulator-IsServing (g ∷ gs) (pos (suc n)) policy sim h =
    subst (IsServing (g ∷ gs)) (ok_inj h) (record {
      rested = record {
        valid = record {
          positive = omega arith;
          bounded = omega arith;
          in_step = refl;
          ids_distinct = tt;
          keys_distinct = tt;
          next_natural = omega arith;
          blocks_valid = λ id b found. absurd (none_ne_some found);
          located = λ k id found. absurd (none_ne_some found);
        };
        idle = λ id b found. absurd (none_ne_some found);
      };
      same_groups = refl;
    })

-- From the constructor on, over any sequence of requests and under any policy, a run either raises
-- that no valid eviction plan is available or ends with a valid idle cache; no `validate` fails.
pub run-IsServing :
    (groups : List GroupSpec) (capacity : ℤ) (policy : EvictionPolicy) (sim : Simulator)
    (rs : List RequestTrace)
    → All IsGroup groups
    → simulator groups capacity policy ≡ ok sim
    → Safe (IsServing groups) (run sim rs)
unfolding run
run-IsServing groups capacity policy sim rs good made =
    Safe-bind (IsServing groups) (IsServing groups) (process_all sim rs) _
      (process_all-IsServing groups sim rs good
        (simulator-IsServing groups capacity policy sim made))
      (λ sim' serving. rw (validate_of_IsValid sim'.state serving.rested.valid) serving)
