-- ===== src/Plugin/Traced/Registering.antt =====
-- Register of the manager.
use mathlib.Core.Path.{subst}
use open_mcp_chain.Prelude.{
  ◌≡◌, refl, sym, ap, ◌∙◌, Bool, true, false, not, ◌&&◌, Option, some, List, Text, text_eq, ◌==◌,
  if◌then◌else◌, is_empty, Bool-cases, Option-cases, inl, inr,
}
use open_mcp_chain.Prelude.Map.{lookup}
use open_mcp_chain.Errors.Value.{GoError, nil, is_nil}
use open_mcp_chain.Task.Interfaces.{Action, pure, ◌>>=◌}
use open_mcp_chain.Plugin.{registered, IsolationPolicy, Config, Plugin, IsolationStrategy}
use open_mcp_chain.Plugin.Isolation.{merge_policies, ensure_policy}
use open_mcp_chain.Plugin.Manager.{
  Manager, Instance, or_empty, enter, configured, register_plugin, register,
}
use open_mcp_chain.Plugin.Monitor.{HookCall}
use open_mcp_chain.Plugin.Traced.{Recorded, lift, traced, traced_strategy}
use open_mcp_chain.Plugin.Traced.Starting.{stay}
use open_mcp_chain.Plugin.Traced.Running.{state_in, IsTrue, Stays, put-IsTrue}

enter-Stays :
    {E : Type 0} (iso : IsolationStrategy E) (m : Manager (Recorded E)) (env : E)
    (calls : List HookCall) (id : Text) (p : Plugin E) (inst : Instance (Recorded E))
    → inst.plugin ≡ traced id p
    → inst.state ≡ registered
    → IsTrue iso m calls
    → Stays iso (enter id inst (m, (env, calls)))
unfolding enter
enter-Stays {E = E} iso m env calls id p inst same fresh v =
    elim (Option-cases (lookup id m.registry)) [
      | inr (old, taken) ↦ rw (taken, enter) v
      | inl free ↦
          let here =
            v.told id
            ∙ ap (λ (o : Option (Instance (Recorded E))). some (state_in o)) free
            ∙ ap some (sym fresh) in
          rw (free, enter)
            (put-IsTrue iso m calls v id p ((nil, inst), (env, calls))
              (record { leads = stay id inst.state calls here; same = same }))
    ]

-- Either outcome of a test.
if_either : {A : Type 0} (P : A → Type 0) (b : Bool) {x y : A} → P x → P y → P (if b then x else y)
if_either P true h k = h
if_either P false h k = k

module _ {E : Type 0} (iso : IsolationStrategy E) (m : Manager (Recorded E)) (id : Text)
    (p : Plugin E) where
  abbrev m' : Manager (Recorded E)
  m' = record m { isolation = traced_strategy iso }

  abbrev AllStay : Action (Manager (Recorded E) × Recorded E) GoError → Type 0
  AllStay act =
      (env : E) (calls : List HookCall) → IsTrue iso m' calls → Stays iso (act (m', (env, calls)))

  configured-Stays :
      (policy : IsolationPolicy) (r : GoError × Config)
      → AllStay (configured id (traced id p) policy r)
  unfolding configured pure
  configured-Stays policy (e, cfg) env calls v =
      if_either
        (λ (act : Action (Manager (Recorded E) × Recorded E) GoError).
          Stays iso (act (m', (env, calls))))
        (is_nil e) (enter-Stays iso m' env calls id p _ refl refl v) v

  register_plugin-Stays :
      (cfg : Option Config) (policy : IsolationPolicy)
      → AllStay (register_plugin id (traced id p) cfg policy)
  unfolding register_plugin ◌>>=◌ pure traced traced_strategy lift
  register_plugin-Stays cfg policy env calls v =
      let merged = merge_policies m.defaults (some policy) in
      elim (Bool-cases (not (is_empty p.info.id) && not (p.info.id == id))) [
        | inl mismatch ↦ rw mismatch v
        | inr matching ↦ elim (Bool-cases (is_nil (ensure_policy p.info merged))) [
          | inr missing ↦ rw (matching, missing) v
          | inl ensured ↦
              let verdict = iso.validate p.info merged env in
              elim (Bool-cases (is_nil verdict.0)) [
                | inr denied ↦ rw (matching, ensured, denied) v
                | inl permitted ↦
                    rw (matching, ensured, permitted)
                      (configured-Stays merged (p.configure (or_empty cfg) verdict.1).0
                        (p.configure (or_empty cfg) verdict.1).1 calls v)
              ]
        ]
      ]

  register-traced-Stays :
      (cfg : Option Config) (policy : IsolationPolicy)
      → AllStay (register id (some (traced id p)) cfg policy)
  unfolding register
  register-traced-Stays cfg policy env calls v = elim (Bool-cases (is_empty id)) [
    | inl empty ↦ rw empty v
    | inr named ↦ rw named (register_plugin-Stays cfg policy env calls v)
  ]

pub register-Stays :
    {E : Type 0} (iso : IsolationStrategy E) (m : Manager (Recorded E)) (id : Text) (p : Plugin E)
    (cfg : Option Config) (policy : IsolationPolicy) (env : E) (calls : List HookCall)
    → IsTrue iso m calls
    → Stays iso (register id (some (traced id p)) cfg policy (m, (env, calls)))
register-Stays {E = E} iso m id p cfg policy env calls v =
    subst
      (λ (i : IsolationStrategy (Recorded E)).
        Stays iso
          (register id (some (traced id p)) cfg policy (record m { isolation = i }, (env, calls))))
      (sym v.strategy)
      (register-traced-Stays iso m id p cfg policy env calls
        (record { strategy = refl; told = v.told; recorded = v.recorded }))
