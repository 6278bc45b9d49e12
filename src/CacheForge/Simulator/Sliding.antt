-- ===== src/CacheForge/Simulator/Sliding.antt =====
-- The windows of the sliding groups: a queue of block ids for each group, oldest first.
use mncs_reference_studies.Common.{
  ℕ, String, Option, none, some, List, [], ◌∷◌, ◌++◌, ltb, if◌then◌else◌, ◌==◌, string_eq, length,
}
use mncs_reference_studies.Common.Int.{ℤ, int_eq}
use mncs_reference_studies.Common.Result.{ok, raise}
use mncs_reference_studies.Common.Sets.{discard}
use mncs_reference_studies.Dict.{lookup, insert}
use mncs_reference_studies.CacheForge.Model.{Outcome, GroupSpec, key_error, assertion_error}
use mncs_reference_studies.CacheForge.State.{CacheState}
use mncs_reference_studies.CacheForge.Simulator.Blocks.{disown}

abbrev pub Windows : Type 0
Windows = List (String × List ℤ)

unfoldable pub with_window : Windows → GroupSpec → Windows
with_window ws g = if g.mode == "sliding" then insert g.name [] ws else ws

-- `{group.name: deque() for group in groups if group.mode == "sliding"}`
unfoldable pub windows_from : Windows → List GroupSpec → Windows
windows_from ws [] = ws
windows_from ws (g ∷ gs) = windows_from (with_window ws g) gs

abbrev pub new_windows : List GroupSpec → Windows
new_windows = windows_from []

-- The `while` loop: it drops the oldest ids until the window fits.
unfoldable pub expire : ℕ → String → CacheState → List ℤ → List ℤ → CacheState × List ℤ × List ℤ
expire limit request_id s owned [] = (s, owned, [])
expire limit request_id s owned (id ∷ window) =
    let rest = expire limit request_id (disown request_id id s) (discard id owned) window in
    if ltb limit (length (id ∷ window)) then rest else (s, owned, id ∷ window)

abbrev pub slide :
    String
    → ℤ
    → String
    → CacheState
    → List ℤ
    → Windows
    → Option ℕ
    → Option (List ℤ)
    → Outcome (CacheState × List ℤ × Windows)
slide name id request_id s owned windows none _ = raise assertion_error
slide name id request_id s owned windows (some limit) none = raise key_error
slide name id request_id s owned windows (some limit) (some window) =
    let (s', owned', window') = expire limit request_id s owned (window ++ (id ∷ [])) in
    ok (s', owned', insert name window' windows)

-- `_advance_sliding`
unfoldable pub advance_sliding :
    GroupSpec → ℤ → String → CacheState → List ℤ → Windows → Outcome (CacheState × List ℤ × Windows)
advance_sliding group id request_id s owned windows =
    if group.mode == "sliding"
    then slide group.name id request_id s owned windows group.window_blocks
        (lookup group.name windows)
    else ok (s, owned, windows)

-- The release of all owned blocks at the end of a request.
unfoldable pub disown_all : String → List ℤ → CacheState → CacheState
disown_all request_id [] s = s
disown_all request_id (id ∷ rest) s = disown_all request_id rest (disown request_id id s)
