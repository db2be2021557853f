-- ===== src/Tests/Plugins.antt =====
-- The manager of plugins with one plugin, whose Start fails at the first call.
use open_mcp_chain.Prelude.{arith, refl, ℕ, zero, suc, none, List, [], ◌∷◌, txt}
use open_mcp_chain.Prelude.Map.{lookup}
use open_mcp_chain.Errors.Value.{nil, plain}
use open_mcp_chain.Task.Interfaces.{pure}
use open_mcp_chain.Plugin.{IsolationPolicy, Plugin, refused}
use open_mcp_chain.Plugin.Isolation.{noop_isolation_strategy}
use open_mcp_chain.Plugin.Manager.{Manager}
use open_mcp_chain.Plugin.Monitor.{monitor}
use open_mcp_chain.Plugin.Traced.{Recorded, traced_strategy}
use open_mcp_chain.Plugin.Traced.Starting.{Cleans}
use open_mcp_chain.Plugin.Traced.Running.{IsTrue}
use open_mcp_chain.Plugin.Traced.Calls.{
  ManagerCall, registers, starts, stops, starts_all, stops_all, perform_all, perform_all-IsTrue,
}

abbrev tool : Plugin ℕ
tool = record {
  info = record {
    id = txt "tool";
    name = [];
    description = [];
    author = [];
    version = [];
    category = [];
    capabilities = [];
  };
  configure = λ cfg n. ((nil, cfg), n);
  init = λ c n. (nil, n);
  start = λ c n. ((elim n [ zero ↦ plain (txt "busy") | suc _ ↦ nil ]), suc n);
  stop = λ c n. (nil, n);
}

abbrev no_policy : IsolationPolicy
no_policy = record { allowed_capabilities = []; denied_capabilities = [] }

abbrev todo : List (ManagerCall ℕ)
todo =
    registers (txt "tool") tool none no_policy
    ∷ starts (txt "tool")
    ∷ starts_all
    ∷ stops (txt "tool")
    ∷ stops_all
    ∷ []

abbrev manager : Manager (Recorded ℕ)
manager = record {
  registry = [];
  loader = record { load = λ path w. (refused (plain (txt "no plugin")), w) };
  isolation = traced_strategy noop_isolation_strategy;
  resources = [];
  defaults = no_policy;
}

noop-Cleans : Cleans (noop_isolation_strategy {W = ℕ})
unfolding noop_isolation_strategy pure
noop-Cleans = record { cleans = λ info env. refl }

manager-IsTrue : IsTrue noop_isolation_strategy manager []
unfolding monitor lookup
manager-IsTrue = record { strategy = refl; told = λ id. refl; recorded = λ id inst h. ground arith }

perform_all-IsTrue_example :
    let (m', (env', calls')) = perform_all todo (manager, (0, [])) in
    IsTrue noop_isolation_strategy m' calls'
perform_all-IsTrue_example =
    perform_all-IsTrue noop_isolation_strategy todo manager 0 [] noop-Cleans manager-IsTrue
