-- ===== src/Stages.antt =====
-- dpark/schedule.py: the stages of a job (`Stage`), `walk_dependencies`, and how `runJob` submits
-- stages and reacts to the ends of map tasks and to failed fetches. The map stage of a shuffle is
-- named by the id of the shuffle plus one, the final stage by zero. A map stage without an entry
-- has no outputs yet, as when `getShuffleMapStage` has just made it.
pub mod Events
pub mod Walk
pub mod Missing
pub mod Live
pub mod Submit
pub mod Sets
pub mod Release
pub mod Keeping
pub mod Blocking
pub mod Progress
mod Tests
use dpark.Common.{
  ℕ, zero, suc, ◌+◌, ◌-◌, Bool, true, false, not, ◌&&◌, ◌||◌, Option, none, some, List, [], ◌∷◌,
  ◌++◌, length, lookup, get_or, set, replicate, contains, ◌==◌, if◌then◌else◌, Result, ok, raise,
  key_error,
}
use dpark.Common.Dicts.{put}

-- A dependency of an RDD: on another RDD, or on the outputs of a shuffle.
pub data Dep : Type 0 where
  narrow : ℕ → Dep
  shuffled : ℕ → Dep

-- The RDDs of a program by their ids, each with its dependencies, and for a shuffle the RDD that its
-- map stage computes.
pub record Program : Type 0 where
  pub dependencies : ℕ → List Dep
  pub partitions : ℕ → ℕ
  pub should_cache : ℕ → Bool
  pub shuffle_rdd : ℕ → ℕ
  pub final_rdd : ℕ

-- `outputLocs` of the map stages by their shuffle
abbrev pub Outputs : Type 0
Outputs = List (ℕ × List (List ℕ))

-- `all(outputLocs)`
abbrev pub all_located : List (List ℕ) → Bool
all_located [] = true
all_located ([] ∷ locs) = false
all_located ((_ ∷ _) ∷ locs) = all_located locs

-- `addOutputLoc`
abbrev pub add_output_loc : List (List ℕ) → ℕ → ℕ → List (List ℕ)
add_output_loc locs partition host = set locs partition (get_or locs partition [] ++ host ∷ [])

-- `ls.remove(host)`: the first occurrence
abbrev pub remove_first : ℕ → List ℕ → List ℕ
remove_first host [] = []
remove_first host (h ∷ hs) = if h == host then hs else h ∷ remove_first host hs

-- `removeHost`
abbrev pub remove_host : List (List ℕ) → ℕ → List (List ℕ)
remove_host [] host = []
remove_host (ls ∷ locs) host =
    (if contains ls host then remove_first host ls else ls) ∷ remove_host locs host

-- sets of numbers: `add`, `remove` of a member, `|=`
abbrev pub insert : ℕ → List ℕ → List ℕ
insert x l = if contains l x then l else x ∷ l

abbrev pub without : ℕ → List ℕ → List ℕ
without x [] = []
without x (y ∷ ys) = if y == x then without x ys else y ∷ without x ys

-- `walk_dependencies`, with what `edge_func` returns and with what it does to an `A`
module _ {A : Type 0} (p : Program) (edge : A → ℕ → Dep → A × Bool) (node : ℕ → Bool) where
  abbrev pub target : Dep → ℕ
  target (narrow r) = r
  target (shuffled d) = p.shuffle_rdd d

  abbrev pub visit_edges : ℕ → List Dep → A → A × List ℕ
  visit_edges r [] a = (a, [])
  visit_edges r (d ∷ ds) a =
      let e = edge a r d in
      let rest = visit_edges r ds e.0 in (rest.0, if e.1 then target d ∷ rest.1 else rest.1)

  unfoldable pub walk_from : ℕ → List ℕ → List ℕ → A → A
  walk_from zero to_visit visited a = a
  walk_from (suc n) [] visited a = a
  walk_from (suc n) (r ∷ to_visit) visited a =
      let found = visit_edges r (p.dependencies r) a in
      let skip = walk_from n to_visit visited a in
      let leaf = walk_from n to_visit (r ∷ visited) a in
      let next = walk_from n (to_visit ++ found.1) (r ∷ visited) found.0 in
      if contains visited r then skip else (if node r then next else leaf)

-- the number of dependencies of the RDDs below `n`
abbrev pub edges_below : Program → ℕ → ℕ
edges_below p zero = 0
edges_below p (suc n) = length (p.dependencies n) + edges_below p n

-- Each dependency is looked at once, so their number is enough fuel.
unfoldable pub walk_dependencies :
    {A : Type 0} → Program → (A → ℕ → Dep → A × Bool) → (ℕ → Bool) → ℕ → A → A
unfolding walk_from
walk_dependencies p edge node root a =
    walk_from p edge node (edges_below p (suc root) + 2) (root ∷ []) [] a

-- The variables of `runJob` and of the scheduler. `cached` is whether all splits of an RDD have a
-- place in `cacheLocs`; `submitted` collects the calls of `submitTasks`, a stage and its partitions, or outputs;
-- `map_locs` those of `MapOutputTracker.set_locs`.
pub record Sched : Type 0 where
  pub outputs : Outputs
  pub finished : List Bool
  pub waiting : List ℕ
  pub running : List ℕ
  pub failed : List ℕ
  pub cached : ℕ → Bool
  pub submitted : List (ℕ × List ℕ)
  pub map_locs : List (ℕ × List ℕ)

-- the partitions without an output
abbrev pub unlocated : ℕ → List (List ℕ) → List ℕ
unlocated i [] = []
unlocated i ([] ∷ locs) = i ∷ unlocated (i + 1) locs
unlocated i ((_ ∷ _) ∷ locs) = unlocated (i + 1) locs

abbrev pub unfinished : ℕ → List Bool → List ℕ
unfinished i [] = []
unfinished i (b ∷ bs) = if b then unfinished (i + 1) bs else i ∷ unfinished (i + 1) bs

-- `[l[-1] for l in outputLocs]`
abbrev pub last_of : ℕ → List ℕ → ℕ
last_of h [] = h
last_of h (x ∷ xs) = last_of x xs

abbrev pub last_locs : List (List ℕ) → List ℕ
last_locs [] = []
last_locs (ls ∷ locs) = last_of 0 ls ∷ last_locs locs

abbrev pub submit_each : (Sched → ℕ → Sched) → Sched → List ℕ → Sched
submit_each submit s [] = s
submit_each submit s (x ∷ xs) = submit_each submit (submit s x) xs

abbrev pub map_stages : List ℕ → List ℕ
map_stages [] = []
map_stages (d ∷ ds) = suc d ∷ map_stages ds

module _ (p : Program) where
  -- `getShuffleMapStage`: the outputs of the map stage of a shuffle
  abbrev pub get_outputs : Outputs → ℕ → List (List ℕ)
  get_outputs outputs d = elim (lookup d outputs) [
    | none ↦ replicate (p.partitions (p.shuffle_rdd d)) []
    | some locs ↦ locs
  ]

  -- `isAvailable` of a map stage
  abbrev pub is_available : Outputs → ℕ → Bool
  is_available outputs d = all_located (get_outputs outputs d)

  -- the function `_` in `getMissingParentStages`
  abbrev pub missing_edge : Outputs → (ℕ → Bool) → List ℕ → ℕ → Dep → List ℕ × Bool
  missing_edge outputs cached missing r dep =
      if p.should_cache r && cached r then (missing, false) else elim dep [
        | narrow _ ↦ (missing, true)
        | shuffled d ↦ (if is_available outputs d then missing else insert d missing, false)
      ]

  abbrev pub stage_rdd : ℕ → ℕ
  stage_rdd zero = p.final_rdd
  stage_rdd (suc d) = p.shuffle_rdd d

  -- `getMissingParentStages`: the shuffles of the stages
  unfoldable pub get_missing : Outputs → (ℕ → Bool) → ℕ → List ℕ
  unfolding walk_dependencies
  get_missing outputs cached stage =
      walk_dependencies p (missing_edge outputs cached) (λ r. true) (stage_rdd stage) []

  -- `submitMissingTasks`
  abbrev pub submit_missing_tasks : Sched → ℕ → Sched
  submit_missing_tasks s stage = record s {
    submitted =
        s.submitted
        ++ (
          stage,
          elim stage [
            | zero ↦ unfinished 0 s.finished
            | suc d ↦ unlocated 0 (get_outputs s.outputs d)
          ],
        )
          ∷ [];
  }

  -- `submitStage`: the fuel bounds the depth of the recursion
  unfoldable pub submit_stage : ℕ → Sched → ℕ → Sched
  unfolding get_missing
  submit_stage zero s stage = s
  submit_stage (suc n) s stage =
      let missing = get_missing s.outputs s.cached stage in
      let parents = submit_each (submit_stage n) s (map_stages missing) in
      if contains s.waiting stage || contains s.running stage then s else elim missing [
        | [] ↦
            let s' = submit_missing_tasks s stage in record s' { running = insert stage s'.running }
        | _ ∷ _ ↦ record parents { waiting = insert stage parents.waiting }
      ]
