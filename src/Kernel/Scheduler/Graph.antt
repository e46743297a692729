-- ===== src/Kernel/Scheduler/Graph.antt =====
-- `Scheduler._check_acyclic`: Kahn's algorithm over the ids and their dependencies.
use pharae.Base.{
  ℕ, zero, suc, ◌+◌, String, none, some, List, [], ◌∷◌, ◌++◌, if◌then◌else◌, eqb, Result, ok, err,
  ◌>>=◌, length,
}
use mathlib.Core.List.{reverse}
use pharae.Base.Dict.{Dict, lookup, insert, get_or}
use pharae.Base.Int.{ℤ, pos, negsuc, pos_part, eqb_ℤ}
use pharae.Schemas.{Task}

-- `cycle` is the SchedulerError, `missing` a KeyError, and `no_fuel` is never met.
pub data GraphError : Type 0 where
  cycle no_fuel : GraphError
  missing : String → GraphError

abbrev pub Graph : Type 0
Graph = Dict (List String)

-- `{t.id: list(t.depends_on) for t in …}` on top of a graph.
unfoldable pub add_tasks : List Task → Graph → Graph
add_tasks [] graph = graph
add_tasks (t ∷ ts) graph = add_tasks ts (insert t.id t.depends_on graph)

unfoldable pub add_stored : Dict Task → Graph → Graph
add_stored [] graph = graph
add_stored ((_, t) ∷ ts) graph = add_stored ts (insert t.id t.depends_on graph)

abbrev pub indegrees : Graph → Dict ℤ
indegrees [] = []
indegrees ((tid, deps) ∷ graph) = (tid, pos (length deps)) ∷ indegrees graph

abbrev pub roots : Dict ℤ → List String
roots [] = []
roots ((tid, deg) ∷ rest) = if eqb_ℤ deg (pos 0) then tid ∷ roots rest else roots rest

-- `dependents.setdefault(dep, []).append(tid)` for each of the dependencies.
unfoldable pub add_dependent : String → List String → Dict (List String) → Dict (List String)
add_dependent tid [] m = m
add_dependent tid (dep ∷ deps) m =
    add_dependent tid deps (insert dep (get_or dep [] m ++ tid ∷ []) m)

unfoldable pub invert : Graph → Dict (List String) → Dict (List String)
unfolding add_dependent
invert [] m = m
invert ((tid, deps) ∷ graph) m = invert graph (add_dependent tid deps m)

abbrev pub decrement : ℤ → ℤ
decrement (pos zero) = negsuc 0
decrement (pos (suc n)) = pos n
decrement (negsuc n) = negsuc (suc n)

-- The queue is a stack, its top first: `queue.pop()` takes what `queue.append` put last.
pub record Kahn : Type 0 where
  pub indegree : Dict ℤ
  pub queue : List String
  pub visited : ℕ

-- The body of the inner `for`: one child of the popped task.
unfoldable pub release_child : String → Kahn → Result GraphError Kahn
release_child child k = elim (lookup child k.indegree) [
  | none ↦ err (missing child)
  | some deg ↦
      let left = decrement deg in
      ok (record {
        indegree = insert child left k.indegree;
        queue = if eqb_ℤ left (pos 0) then child ∷ k.queue else k.queue;
        visited = k.visited;
      })
]

unfoldable pub release : List String → Kahn → Result GraphError Kahn
unfolding release_child
release [] k = ok k
release (child ∷ children) k = release_child child k >>= λ k'. release children k'

-- The `while queue` loop, on the rounds left.
unfoldable pub drain : ℕ → Dict (List String) → Dict ℤ → List String → ℕ → Result GraphError ℕ
unfolding release get_or
drain fuel dependents indegree [] visited = ok visited
drain zero dependents indegree (tid ∷ queue) visited = err no_fuel
drain (suc fuel) dependents indegree (tid ∷ queue) visited =
    release (get_or tid [] dependents)
      (record { indegree = indegree; queue = queue; visited = visited + 1 })
    >>= λ k. drain fuel dependents k.indegree k.queue k.visited

-- The rounds that are left at most: what is queued, and what can still be queued.
abbrev pub degree_sum : Dict ℤ → ℕ
degree_sum [] = 0
degree_sum ((_, deg) ∷ rest) = pos_part deg + degree_sum rest

abbrev pub rounds : Dict ℤ → List String → ℕ
rounds indegree queue = length queue + degree_sum indegree

-- `_check_acyclic` on a graph.
unfoldable pub kahn : Graph → Result GraphError (Unit {0})
unfolding drain invert
kahn graph =
    let indegree = indegrees graph in
    let queue = reverse (roots indegree) in
    drain (rounds indegree queue) (invert graph []) indegree queue 0 >>= λ visited.
    if eqb visited (length graph) then ok tt else err cycle

unfoldable pub check_acyclic : Dict Task → List Task → Result GraphError (Unit {0})
unfolding kahn add_tasks add_stored
check_acyclic stored new = kahn (add_tasks new (add_stored stored []))
