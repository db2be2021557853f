-- ===== src/Plugin/Traced/Calls.antt =====
-- Any calls of the manager.
use open_mcp_chain.Prelude.{Option, some, List, [], ◌∷◌, map, Text, text_eq, Bool-cases, inl, inr}
use open_mcp_chain.Errors.Value.{GoError, is_nil}
use open_mcp_chain.Task.Interfaces.{Action, pure, ◌>>=◌}
use open_mcp_chain.Plugin.{IsolationPolicy, Config, Plugin, IsolationStrategy}
use open_mcp_chain.Plugin.Manager.{
  Manager, register, start, stop, start_each, stop_each, start_all, stop_all,
}
use open_mcp_chain.Plugin.Monitor.{HookCall}
use open_mcp_chain.Plugin.Traced.{Recorded, traced}
use open_mcp_chain.Plugin.Traced.Starting.{Cleans}
use open_mcp_chain.Plugin.Traced.Running.{IsTrue, Stays, start-Stays, stop-Stays}
use open_mcp_chain.Plugin.Traced.Registering.{register-Stays}

start_each-Stays :
    {E : Type 0} (iso : IsolationStrategy E) (ids : List Text) (m : Manager (Recorded E)) (env : E)
    (calls : List HookCall)
    → IsTrue iso m calls
    → Stays iso (start_each ids (m, (env, calls)))
unfolding start_each ◌>>=◌ pure
start_each-Stays iso [] m env calls v = v
start_each-Stays iso (id ∷ ids) m env calls v =
    let (e, (m₁, (env₁, calls₁))) = start id (m, (env, calls)) in
    let v₁ = start-Stays iso m env calls id v in
    elim (Bool-cases (is_nil e)) [
      | inl fine ↦ rw fine (start_each-Stays iso ids m₁ env₁ calls₁ v₁)
      | inr failed ↦ rw failed v₁
    ]

stop_each-Stays :
    {E : Type 0} (iso : IsolationStrategy E) (ids : List Text) (m : Manager (Recorded E)) (env : E)
    (calls : List HookCall)
    → Cleans iso
    → IsTrue iso m calls
    → Stays iso (stop_each ids (m, (env, calls)))
unfolding stop_each ◌>>=◌ pure
stop_each-Stays iso [] m env calls c v = v
stop_each-Stays iso (id ∷ ids) m env calls c v =
    let (e, (m₁, (env₁, calls₁))) = stop id (m, (env, calls)) in
    let v₁ = stop-Stays iso m env calls id c v in
    elim (Bool-cases (is_nil e)) [
      | inl fine ↦ rw fine (stop_each-Stays iso ids m₁ env₁ calls₁ c v₁)
      | inr failed ↦ rw failed v₁
    ]

-- One call of the manager's methods.
pub data ManagerCall (E : Type 0) : Type 0 where
  registers : Text → Plugin E → Option Config → IsolationPolicy → ManagerCall E
  starts stops : Text → ManagerCall E
  starts_all stops_all : ManagerCall E

unfoldable pub perform :
    {E : Type 0} → ManagerCall E → Action (Manager (Recorded E) × Recorded E) GoError
perform (registers id p cfg policy) = register id (some (traced id p)) cfg policy
perform (starts id) = start id
perform (stops id) = stop id
perform starts_all = start_all
perform stops_all = stop_all

unfoldable pub perform_all :
    {E : Type 0}
    → List (ManagerCall E)
    → Manager (Recorded E) × Recorded E
    → Manager (Recorded E) × Recorded E
perform_all [] s = s
perform_all (c ∷ calls) s = perform_all calls (perform c s).1

perform-Stays :
    {E : Type 0} (iso : IsolationStrategy E) (c : ManagerCall E) (m : Manager (Recorded E))
    (env : E) (calls : List HookCall)
    → Cleans iso
    → IsTrue iso m calls
    → Stays iso (perform c (m, (env, calls)))
unfolding perform start_all stop_all
perform-Stays iso (registers id p cfg policy) m env calls c v =
    register-Stays iso m id p cfg policy env calls v
perform-Stays iso (starts id) m env calls c v = start-Stays iso m env calls id v
perform-Stays iso (stops id) m env calls c v = stop-Stays iso m env calls id c v
perform-Stays iso starts_all m env calls c v =
    start_each-Stays iso (map (λ e. e.0) m.registry) m env calls v
perform-Stays iso stops_all m env calls c v =
    stop_each-Stays iso (map (λ e. e.0) m.registry) m env calls c v

-- Whatever the plugins do, and with an isolation strategy whose Cleanup never fails: after any calls of
-- Register, Start, Stop, StartAll and StopAll, the calls of the hooks of every plugin are a path of the life
-- cycle, and the state that the manager holds is where it ends; a plugin that is not registered had none.
pub perform_all-IsTrue :
    {E : Type 0} (iso : IsolationStrategy E) (todo : List (ManagerCall E))
    (m : Manager (Recorded E)) (env : E) (calls : List HookCall)
    → Cleans iso
    → IsTrue iso m calls
    → let (m', (env', calls')) = perform_all todo (m, (env, calls)) in IsTrue iso m' calls'
unfolding perform_all
perform_all-IsTrue iso [] m env calls c v = v
perform_all-IsTrue iso (call ∷ todo) m env calls c v =
    let (e, (m₁, (env₁, calls₁))) = perform call (m, (env, calls)) in
    perform_all-IsTrue iso todo m₁ env₁ calls₁ c (perform-Stays iso call m env calls c v)
