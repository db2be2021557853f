-- ===== src/Plugin/Traced.antt =====
-- The manager over plugins whose hooks are recorded, against the automaton of the life cycle.
pub mod Starting
pub mod Running
pub mod Registering
pub mod Calls
use open_mcp_chain.Prelude.{
  ◌≡◌, refl, Bool, true, false, Option, none, some, List, [], ◌∷◌, ◌++◌, Text, text_eq, ◌==◌,
  if◌then◌else◌,
}
use open_mcp_chain.Errors.Value.{GoError, nil, is_nil}
use open_mcp_chain.Task.Interfaces.{Action}
use open_mcp_chain.Plugin.{
  State, registered, Info, IsolationPolicy, Config, ExecutionContext, Plugin, IsolationStrategy,
}
use open_mcp_chain.Plugin.Manager.{Manager, Instance, register, start, stop}
use open_mcp_chain.Plugin.Monitor.{Hook, HookCall, monitor, advance_from}
use open_mcp_chain.Plugin.Monitor

-- What the plugins and the strategy act on, and the calls of hooks so far, the latest last.
abbrev pub Recorded : Type 0 → Type 0
Recorded E = E × List HookCall

module _ {E : Type 0} where
  unfoldable pub lift : {A : Type 0} → Action E A → Action (Recorded E) A
  lift act (env, calls) = let (a, env') = act env in (a, (env', calls))

  unfoldable pub record_hook : Text → Hook → Action E GoError → Action (Recorded E) GoError
  record_hook id hook act (env, calls) =
      let (e, env') = act env in
      (e, (env', calls ++ record { id = id; hook = hook; fine = is_nil e } ∷ []))

  unfoldable pub traced : Text → Plugin E → Plugin (Recorded E)
  unfolding lift record_hook
  traced id p = record {
    info = p.info;
    configure = λ cfg. lift (p.configure cfg);
    init = λ c. record_hook id Hook.init (p.init c);
    start = λ c. record_hook id Hook.start (p.start c);
    stop = λ c. record_hook id Hook.stop (p.stop c);
  }

  unfoldable pub traced_strategy : IsolationStrategy E → IsolationStrategy (Recorded E)
  unfolding lift
  traced_strategy s = record {
    validate = λ info policy. lift (s.validate info policy);
    prepare = λ info. lift (s.prepare info);
    cleanup = λ info. lift (s.cleanup info);
  }

-- Where the recorded calls for `id` lead.
abbrev pub reached : Text → List HookCall → Option State
reached id calls = monitor id (some registered) calls

pub monitor-append :
    (id : Text) (s : Option State) (calls : List HookCall) (c : HookCall)
    → monitor id s (calls ++ c ∷ [])
      ≡ (if c.id == id then advance_from (monitor id s calls) c else monitor id s calls)
unfolding monitor
monitor-append id s [] c = refl
monitor-append id s (d ∷ calls) c =
    monitor-append id (if d.id == id then advance_from s d else s) calls c
