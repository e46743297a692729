-- ===== src/Executor/Checkpoints.antt =====
-- The checkpoints of nexus/executor/executor.py.
use pharae.Base.{String, Option, none, some, List, [], ◌∷◌, length, if◌then◌else◌, ◌==◌}
use pharae.Base.Dict.{Dict, insert, values}
use pharae.Schemas.{Value, Fields, dict, field, no_field, str, nat, Run, TaskResult, is_completed}
use pharae.Kernel.Events.{announce}
use pharae.Kernel.Sessions.{session_space}
use pharae.Kernel.State.{put, snapshot}
use pharae.Kernel.Runtime.Execution.{Exec}
use pharae.Executor.Jobs.{Executor}

-- `_CHECKPOINT_NS`
abbrev pub space_name : String
space_name = "checkpoints"

abbrev pub fields_of : Dict Value → Fields
fields_of [] = no_field
fields_of ((k, v) ∷ d) = field k v (fields_of d)

-- `items()`
abbrev pub entries : Fields → Dict Value
entries no_field = []
entries (field k v fs) = (k, v) ∷ entries fs

-- The comprehension over the results.
unfoldable pub completed_outputs : List TaskResult → Dict Value → Dict Value
completed_outputs [] d = d
completed_outputs (r ∷ rs) d =
    completed_outputs rs (if is_completed r.status then insert r.task_id r.output d else d)

abbrev pub completed_of : Run → Dict Value
completed_of run = completed_outputs (values run.task_results) []

abbrev pub checkpoint_value : String → Dict Value → Dict Value → Value
checkpoint_value run_id completed session_state = dict (
    field "run_id" (str run_id) (
      field "completed" (dict (fields_of completed))
        (field "session_state" (dict (fields_of session_state)) no_field)))

-- `_save_checkpoint`
unfoldable pub save_checkpoint : Executor → Exec → Exec
unfolding completed_outputs
save_checkpoint e x =
    let completed = completed_of x.run in
    let session_state = snapshot (session_space x.run.session_id) x.state in
    if e.checkpoints
    then record x {
      state =
          put space_name x.run.plan_id (checkpoint_value x.run.id completed session_state) x.state;
      bus =
          announce "run.checkpointed"
            (("run_id", str x.run.id)
              ∷ ("plan_id", str x.run.plan_id)
              ∷ ("completed_count", nat (length completed))
              ∷ [])
            x.bus;
    }
    else x

-- The parts of a checkpoint that `_run` restores.
pub record Checkpoint : Type 0 where
  pub completed : Dict Value
  pub session_state : Dict Value

-- `restored.get(name, {})`
unfoldable pub field_or_empty : String → Fields → Option (Dict Value)
field_or_empty name no_field = some []
field_or_empty name (field k (dict fs) rest) =
    if k == name then some (entries fs) else field_or_empty name rest
field_or_empty name (field k v rest) = if k == name then none else field_or_empty name rest

abbrev pub checkpoint_from : Option (Dict Value) → Option (Dict Value) → Option Checkpoint
checkpoint_from (some completed) (some session_state) =
    some (record { completed = completed; session_state = session_state })
checkpoint_from _ _ = none

unfoldable pub load_checkpoint : Value → Option Checkpoint
load_checkpoint (dict fs) =
    checkpoint_from (field_or_empty "completed" fs) (field_or_empty "session_state" fs)
load_checkpoint _ = none
