-- ===== src/Executor/Schedule.antt =====
-- An executable schedule of nexus/executor/executor.py: the steps and what falls between them.
use pharae.Base.{ℕ, List, [], ◌∷◌, ok, ◌>>=◌, >>=-eq-ok, ◌≡◌}
use mathlib.Core.Path.{subst}
use pharae.Kernel.Runtime.Context.{Effect}
use pharae.Kernel.Runtime.Execution.{Step}
use pharae.Executor.Jobs.{Control, Executor, Loop, control}
use pharae.Executor.Machine.{act, advance}
use pharae.Executor.Steps.{LoopReach, acts, advances, controls, here, next}

-- A step with the futures that a wait would find, a call of the job, or an effect of a handler.
pub data Turn : Type 0 where
  step : List ℕ → Turn
  call : Control → Turn
  effect : Effect → Turn

abbrev take_turn : Executor → Turn → Loop → Step Loop
take_turn e (step chosen) l = advance e chosen l
take_turn e (call c) l = ok (record l { job = control c l.job })
take_turn e (effect x) l = ok (act x l)

unfoldable pub take_turns : Executor → List Turn → Loop → Step Loop
take_turns e [] l = ok l
take_turns e (t ∷ ts) l = take_turn e t l >>= take_turns e ts

then_reach : {e : Executor} {k l m : Loop} → LoopReach e k l → LoopReach e l m → LoopReach e k m
then_reach r here = r
then_reach r (next s x) = next (then_reach r s) x

take_turn-LoopReach :
    (e : Executor) (t : Turn) (l : Loop) {m : Loop} → take_turn e t l ≡ ok m → LoopReach e l m
take_turn-LoopReach e (step chosen) l stepped = next here (advances chosen stepped)
take_turn-LoopReach e (call c) l stepped = next here (controls c (cc))
take_turn-LoopReach e (effect x) l stepped = next here (acts x (cc))

pub take_turns-LoopReach :
    (e : Executor) (ts : List Turn) (l : Loop) {m : Loop}
    → take_turns e ts l ≡ ok m
    → LoopReach e l m
unfolding take_turns
take_turns-LoopReach e [] l {m} stepped =
    let same : l ≡ m = cc in subst (λ k. LoopReach e l k) same here
take_turns-LoopReach e (t ∷ ts) l stepped =
    let (k, first, rest) = >>=-eq-ok (take_turn e t l) (take_turns e ts) stepped in
    then_reach (take_turn-LoopReach e t l first) (take_turns-LoopReach e ts k rest)
