-- ===== src/Plugin/Traced/Running.antt =====
-- Start and Stop of the manager.
use mathlib.Core.Path.{subst}
use open_mcp_chain.Prelude.{
  ◌≡◌, sym, ap, ◌∙◌, Option, none, some, List, Text, text_eq, text_beq_iff, ◌==◌, Bool-cases,
  Option-cases, inl, inr,
}
use open_mcp_chain.Prelude.Map.{lookup, insert, lookup-insert_self, lookup-insert_ne}
use open_mcp_chain.Errors.Value.{GoError}
use open_mcp_chain.Plugin.{State, registered, Plugin, IsolationStrategy}
use open_mcp_chain.Plugin.Manager.{Manager, Instance, start_instance, stop_instance, start, stop}
use open_mcp_chain.Plugin.Monitor.{HookCall}
use open_mcp_chain.Plugin.Traced.{Recorded, traced, traced_strategy, reached}
use open_mcp_chain.Plugin.Traced.Starting.{Moved, Cleans, start_instance-Moved, stop_instance-Moved}

abbrev pub state_in : {W : Type 0} → Option (Instance W) → State
state_in none = registered
state_in (some inst) = inst.state

-- The manager's account of every plugin is where its recorded calls lead.
pub record IsTrue {E : Type 0} (iso : IsolationStrategy E) (m : Manager (Recorded E))
    (calls : List HookCall) : Type 0 where
  pub strategy : m.isolation ≡ traced_strategy iso
  pub told : (id : Text) → reached id calls ≡ some (state_in (lookup id m.registry))
  pub recorded :
      (id : Text) (inst : Instance (Recorded E))
      → lookup id m.registry ≡ some inst
      → (p : Plugin E) × (inst.plugin ≡ traced id p)

module _ {E : Type 0} (iso : IsolationStrategy E) (m : Manager (Recorded E)) (calls : List HookCall)
    (true_so_far : IsTrue iso m calls) where
  pub put-IsTrue :
      (id : Text) (p : Plugin E) (r : (GoError × Instance (Recorded E)) × Recorded E)
      → Moved id p calls r
      → IsTrue iso (record m { registry = insert id r.0.1 m.registry }) r.1.1
  put-IsTrue id p r moved = record {
    strategy = true_so_far.strategy;
    told = λ j. elim (Bool-cases (id == j)) [
      | inl same ↦
          let key = (text_beq_iff id j).0 same in
          subst
            (λ (k : Text).
              reached k r.1.1 ≡ some (state_in (lookup k (insert id r.0.1 m.registry))))
            key (rw (lookup-insert_self id r.0.1 m.registry) (moved.leads.own))
      | inr apart ↦
          rw (lookup-insert_ne id j r.0.1 m.registry apart)
            (moved.leads.others j apart ∙ true_so_far.told j)
    ];
    recorded = λ j inst h. elim (Bool-cases (id == j)) [
      | inl same ↦
          let key = (text_beq_iff id j).0 same in
          let there = lookup-insert_self id r.0.1 m.registry in
          let at_id =
            subst (λ (k : Text). lookup k (insert id r.0.1 m.registry) ≡ some inst) (sym key) h in
          let one : inst ≡ r.0.1 = cc in
          subst (λ (k : Text). (p : Plugin E) × (inst.plugin ≡ traced k p)) key
            (p, ap (λ (i : Instance (Recorded E)). i.plugin) one ∙ moved.same)
      | inr apart ↦
          true_so_far.recorded j inst (sym (lookup-insert_ne id j r.0.1 m.registry apart) ∙ h)
    ];
  }

  module _ (id : Text) (inst : Instance (Recorded E))
      (found : lookup id m.registry ≡ some inst) where
    reached_now : reached id calls ≡ some inst.state
    reached_now =
        true_so_far.told id ∙ ap (λ (o : Option (Instance (Recorded E))). some (state_in o)) found

    started-Moved :
        (env : E)
        → (p : Plugin E) × Moved id p calls
            (start_instance m.isolation m.resources id inst inst.state (env, calls))
    started-Moved env =
        let (p, same) = true_so_far.recorded id inst found in
        let moved =
          start_instance-Moved iso m.resources id p inst inst.state env calls reached_now in
        (
          p,
          subst
              (λ (i : IsolationStrategy (Recorded E)).
                Moved id p calls (start_instance i m.resources id inst inst.state (env, calls)))
              (sym true_so_far.strategy)
              (subst
                (λ (q : Plugin (Recorded E)). Moved id p calls (
                  start_instance (traced_strategy iso) m.resources id (record inst { plugin = q })
                    inst.state (env, calls)))
                (sym same) moved),
        )

    stopped-Moved :
        (env : E)
        → Cleans iso
        → (p : Plugin E) × Moved id p calls
            (stop_instance m.isolation m.resources id inst inst.state (env, calls))
    stopped-Moved env c =
        let (p, same) = true_so_far.recorded id inst found in
        let moved =
          stop_instance-Moved iso m.resources id p inst inst.state env calls c reached_now in
        (
          p,
          subst
              (λ (i : IsolationStrategy (Recorded E)).
                Moved id p calls (stop_instance i m.resources id inst inst.state (env, calls)))
              (sym true_so_far.strategy)
              (subst
                (λ (q : Plugin (Recorded E)). Moved id p calls (
                  stop_instance (traced_strategy iso) m.resources id (record inst { plugin = q })
                    inst.state (env, calls)))
                (sym same) moved),
        )

-- What holds of a manager and the recorded calls, of the outcome of an action.
abbrev pub Stays :
    {E A : Type 0} → IsolationStrategy E → A × (Manager (Recorded E) × Recorded E) → Type 0
Stays iso (a, (m, (env, calls))) = IsTrue iso m calls

pub start-Stays :
    {E : Type 0} (iso : IsolationStrategy E) (m : Manager (Recorded E)) (env : E)
    (calls : List HookCall) (id : Text)
    → IsTrue iso m calls
    → Stays iso (start id (m, (env, calls)))
unfolding start
start-Stays iso m env calls id v = elim (Option-cases (lookup id m.registry)) [
  | inl missing ↦ rw (missing, start) v
  | inr (inst, found) ↦
      let (p, moved) = started-Moved iso m calls v id inst found env in
      rw (found, start) (put-IsTrue iso m calls v id p _ moved)
]

pub stop-Stays :
    {E : Type 0} (iso : IsolationStrategy E) (m : Manager (Recorded E)) (env : E)
    (calls : List HookCall) (id : Text)
    → Cleans iso
    → IsTrue iso m calls
    → Stays iso (stop id (m, (env, calls)))
unfolding stop
stop-Stays iso m env calls id c v = elim (Option-cases (lookup id m.registry)) [
  | inl missing ↦ rw (missing, stop) v
  | inr (inst, found) ↦
      let (p, moved) = stopped-Moved iso m calls v id inst found env c in
      rw (found, stop) (put-IsTrue iso m calls v id p _ moved)
]
