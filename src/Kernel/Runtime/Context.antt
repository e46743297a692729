-- ===== src/Kernel/Runtime/Context.antt =====
-- `RunContext` and a handler's call.
use pharae.Base.{String, List, [], ◌∷◌, Result, Bool, true, false}
use pharae.Base.Dict.{Dict}
use pharae.Schemas.{Value, Task}
use pharae.Kernel.Events.{EventBus, announce}
use pharae.Kernel.State.{StateManager, get, put}
use pharae.Kernel.Sessions.{session_space}

-- `not s` for a text.
abbrev pub is_empty_text : String → Bool
is_empty_text String.[] = true
is_empty_text (String.◌∷◌ c s) = false

pub record RunContext : Type 0 where
  pub run_id : String
  pub session_id : String
  pub state : StateManager
  pub bus : EventBus

-- `RunContext.get` and `RunContext.set`
unfoldable pub ctx_get : String → Value → RunContext → Value
ctx_get key default ctx = get (session_space ctx.session_id) key default ctx.state

unfoldable pub ctx_set : String → Value → RunContext → RunContext
ctx_set key value ctx = record ctx {
  state = put (session_space ctx.session_id) key value ctx.state;
}

-- What a handler did through its context, in order.
pub data Effect : Type 0 where
  set_value : String → Value → Effect
  publishes : String → Dict Value → Effect

pub record Reply : Type 0 where
  pub effects : List Effect
  pub result : Result String Value

pub record Handler : Type 0 where
  pub run : Task → RunContext → Reply

unfoldable pub apply_effect : Effect → RunContext → RunContext
unfolding ctx_set
apply_effect (set_value key value) ctx = ctx_set key value ctx
apply_effect (publishes topic payload) ctx = record ctx { bus = announce topic payload ctx.bus }

unfoldable pub apply_effects : List Effect → RunContext → RunContext
unfolding apply_effect
apply_effects [] ctx = ctx
apply_effects (e ∷ es) ctx = apply_effects es (apply_effect e ctx)

-- The call of a handler: what it did, and what it returned or raised.
unfoldable pub call_handler : Handler → Task → RunContext → Result String Value × RunContext
unfolding apply_effects
call_handler handler task ctx =
    let reply = handler.run task ctx in (reply.result, apply_effects reply.effects ctx)
