-- ===== src/Tests/Executor.antt =====
-- The executor on a plan whose first task is retried.
use pharae.Base.{
  String, In, true, false, none, some, List, [], ◌∷◌, ◌++◌, eqb, sort_by, arith, ok, err, ◌≡◌, refl,
  if◌then◌else◌,
}
use pharae.Base.Dict.{Dict, has_key, get_or, insert, lookup, values}
use pharae.Schemas.{TaskResult, TaskStatus, Value, is_completed, null, str}
use pharae.Kernel.Scheduler.Running.{is_running_at}
use pharae.Kernel.Runtime.{new_run}
use pharae.Kernel.Runtime.Context.{set_value}
use pharae.Kernel.Runtime.Execution.{Exec, Step, completed_result}
use pharae.Kernel.Sessions.{session_space}
use pharae.Kernel.State.{get, new_state, snapshot}
use pharae.Executor.{replay, replay_one}
use pharae.Executor.Jobs.{Control, Executor, Loop, Phase, new_job}
use pharae.Executor.Checkpoints.{load_checkpoint, save_checkpoint, space_name}
use pharae.Executor.Machine.{
  act, admit, advance, advance_at, cancel_open, cancel_rest, complete_task, dispatch, fail_task,
  final_status, launch, note_completion, note_failure, refusal, report_run, retry, settle,
  settle_outcome,
}
use pharae.Kernel.Events.{announce, publish}
use pharae.Kernel.Scheduler.{
  cancel, complete, fail, finish, get_task, ready_tasks, set_status, start,
}
use pharae.Kernel.State.{put}
use pharae.Kernel.Runtime.Execution.{fill_results, resolve_handler, set_result}
use pharae.Executor.Steps.{LoopReach}
use pharae.Executor.Cancellation.{IsStopped, LoopReach-IsStopped}
use pharae.Executor.Leftovers.{AtReport, ending-AtReport}
use pharae.Executor.Reports.{idle, unpaused_ends}
use pharae.Executor.Tracking.{IsTracked}
use pharae.Executor.Tracked.{LoopReach-settled}
use pharae.Executor.Replay.{IsReplayed, load_checkpoint-save_checkpoint, replay-IsReplayed}
use pharae.Executor.Schedule.{Turn, call, effect, step, take_turns, take_turns-LoopReach}
use pharae.Tests.Capabilities.{empty_registry}
use pharae.Tests.Samples.{clock, failing_plan, quiet_runtime, task, worker, with_status}

-- The first future raises, the others return.
abbrev pub executor : Executor
executor = record {
  handlers = ("code", worker) ∷ [];
  max_attempts = 2;
  checkpoints = true;
  security = none;
  registry = empty_registry;
  counter = 0;
  outcome = λ n. if eqb n 0 then err "boom" else ok (str "x");
  show_reason = λ r. "";
}

abbrev pub exec : Exec
exec = record {
  scheduler = record {
    tasks = ("b", task "b" [] 0) ∷ ("d", task "d" ("b" ∷ []) 0) ∷ [];
    order = ("b", 0) ∷ ("d", 1) ∷ [];
    dependents = ("b", "d" ∷ []) ∷ [];
  };
  run = new_run "run-e00001" "plan-1" "ses-1" (clock 0);
  state = new_state;
  bus = quiet_runtime.bus;
}

abbrev pub begun : Loop
begun = record {
  phase = Phase.testing;
  job = new_job false;
  exec = exec;
  inflight = [];
  futures = 0;
}

-- Steps at which each future that is known has returned.
abbrev pub all_returned : Turn
all_returned = step (0 ∷ 1 ∷ 2 ∷ [])

abbrev pub round : List Turn
round =
    all_returned ∷ all_returned ∷ all_returned ∷ all_returned ∷ all_returned ∷ all_returned
    ∷ all_returned ∷ all_returned ∷ all_returned ∷ all_returned ∷ []

abbrev pub turns : List Turn
turns = effect (set_value "k" (str "v")) ∷ round ++ round ++ round ++ round ++ round

abbrev pub last : Loop → Step Loop → Loop
last l (ok m) = m
last l (err e) = l

-- The two tasks after the first one's retry.
abbrev end : Loop
end = last begun (take_turns executor turns begun)

machine : Unit {0}
unfolding take_turns advance advance_at dispatch admit launch refusal settle settle_outcome retry
    complete_task fail_task note_completion note_failure save_checkpoint cancel_open cancel_rest
    report_run final_status ready_tasks start complete cancel finish fail get_task set_status
    announce publish resolve_handler put snapshot act fill_results sort_by lookup insert has_key
    get_or
machine = tt

ran : take_turns executor turns begun ≡ ok end
unfolding machine
ran = refl

reached : LoopReach executor begun end
reached = take_turns-LoopReach executor turns begun ran

ended : end.phase ≡ Phase.ended
unfolding machine
ended = refl

futures : end.futures ≡ 3
unfolding machine
futures = refl

-- The first future was retried, and its second attempt is the one that counts.
second_attempt :
    lookup "b" end.exec.run.task_results
    ≡ some (record (completed_result "b" (str "x")) { attempts = 2 })
unfolding machine
second_attempt = refl

begun-IsTracked : IsTracked begun
unfolding is_running_at lookup
begun-IsTracked = record { covered = λ id runs. absurd (ground arith); place = tt }

LoopReach-settled_example : is_running_at "d" end.exec.scheduler ≡ false
LoopReach-settled_example = LoopReach-settled executor reached begun-IsTracked ended "d"

-- A job that is cancelled while its first task is in flight.
abbrev cancelled : Loop
cancelled = record begun {
  phase = Phase.waiting;
  job = record { cancel_flag = true; go = true };
  exec = record exec {
    scheduler = record exec.scheduler {
      tasks =
          ("b", with_status TaskStatus.running (task "b" [] 0)) ∷ ("d", task "d" ("b" ∷ []) 0) ∷ [];
    };
  };
  inflight = record { future = 0; task = task "b" [] 0; attempt = 1 } ∷ [];
  futures = 1;
}

abbrev cancelled_turns : List Turn
cancelled_turns =
    step (0 ∷ [])
    ∷ call Control.unpause
    ∷ step []
    ∷ step []
    ∷ step []
    ∷ step []
    ∷ step []
    ∷ step []
    ∷ step []
    ∷ step []
    ∷ step []
    ∷ []

abbrev cancelled_end : Loop
cancelled_end = last cancelled (take_turns executor cancelled_turns cancelled)

cancelled_ran : take_turns executor cancelled_turns cancelled ≡ ok cancelled_end
unfolding machine
cancelled_ran = refl

cancelled_over : cancelled_end.phase ≡ Phase.ended
unfolding machine
cancelled_over = refl

LoopReach-IsStopped_example : IsStopped 1 cancelled_end
LoopReach-IsStopped_example =
    LoopReach-IsStopped executor
      (take_turns-LoopReach executor cancelled_turns cancelled cancelled_ran) refl tt

abbrev ending : Loop
ending = record cancelled { phase = Phase.ending; inflight = [] }

abbrev at_report : Loop
at_report = last ending (advance executor [] ending)

ending_moved : advance executor [] ending ≡ ok at_report
unfolding machine
ending_moved = refl

ending-AtReport_example : AtReport at_report
ending-AtReport_example = ending-AtReport executor [] ending refl refl ending_moved

unpaused_ends_example :
    (m : Loop) × LoopReach executor (idle false Phase.choosing exec 0) m
    × (m.phase ≡ Phase.ended)
    × (m.exec.scheduler ≡ exec.scheduler)
    × (m.job.cancel_flag ≡ false)
unpaused_ends_example = unpaused_ends executor exec 0

load_checkpoint-save_checkpoint_example :
    let results = values end.exec.run.task_results in
    (completed : Dict Value) × (load_checkpoint
        (get space_name end.exec.run.plan_id null (save_checkpoint executor end.exec).state)
      ≡ some (record {
        completed = completed;
        session_state = snapshot (session_space end.exec.run.session_id) end.exec.state;
      }))
    × ((r : TaskResult)
        → In r results
        → is_completed r.status ≡ true
        → has_key r.task_id completed ≡ true)
    × ((id : String) (v : Value)
        → lookup id completed ≡ some v
        → (r : TaskResult) × In r results
          × (is_completed r.status ≡ true)
          × (r.task_id ≡ id)
          × (r.output ≡ v))
load_checkpoint-save_checkpoint_example = load_checkpoint-save_checkpoint executor end.exec refl

-- The checkpoint's other output belongs to no task of the plan.
abbrev outputs : Dict Value
outputs = ("old", null) ∷ ("b", str "x") ∷ []

abbrev replayed : Exec
replayed = replay_end exec (replay failing_plan.tasks outputs exec)
  where
    replay_end : Exec → Step Exec → Exec
    replay_end x (ok y) = y
    replay_end x (err e) = x

replay_ran : replay failing_plan.tasks outputs exec ≡ ok replayed
unfolding machine replay replay_one set_result
replay_ran = refl

has_b : has_key "b" outputs ≡ true
unfolding machine
has_b = refl

replay-IsReplayed_example : IsReplayed "b" replayed
replay-IsReplayed_example =
    replay-IsReplayed failing_plan.tasks outputs exec replay_ran "b" refl has_b
