-- ===== src/Plugin/Traced/Starting.antt =====
-- One Start or Stop of an instance.
use open_mcp_chain.Prelude.{
  ◌≡◌, refl, ◌∙◌, Bool, true, false, some, List, [], ◌∷◌, ◌++◌, Text, text_eq, text_beq_iff, ◌==◌,
  if◌then◌else◌, Bool-cases, inl, inr, arith,
}
use open_mcp_chain.Errors.Value.{GoError, nil, is_nil}
use open_mcp_chain.Task.Interfaces.{pure, ◌>>=◌}
use open_mcp_chain.Plugin.{
  State, registered, initialised, started, stopped, Info, Config, ExecutionContext, clone, Plugin,
  IsolationStrategy,
}
use open_mcp_chain.Plugin.Manager.{Instance, activate, start_instance, stop_instance}
use open_mcp_chain.Plugin.Monitor.{Hook, HookCall, advance, advance_from}
use open_mcp_chain.Plugin.Traced.{
  Recorded, record_hook, lift, traced, traced_strategy, reached, monitor-append,
}

-- After one call on `id` the recorded calls lead to `s'` for it, and where they led for all else.
pub record Leads (id : Text) (s' : State) (calls calls' : List HookCall) : Type 0 where
  pub own : reached id calls' ≡ some s'
  pub others : (j : Text) → (id == j) ≡ false → reached j calls' ≡ reached j calls

pub stay :
    (id : Text) (s : State) (calls : List HookCall)
    → reached id calls ≡ some s
    → Leads id s calls calls
stay id s calls h = record { own = h; others = λ j apart. refl }

-- one more hook
hooked :
    (id : Text) (hook : Hook) (fine : Bool) (s s' : State) (calls : List HookCall)
    → reached id calls ≡ some s
    → advance s hook fine ≡ some s'
    → Leads id s' calls (calls ++ record { id = id; hook = hook; fine = fine } ∷ [])
unfolding advance_from
hooked id hook fine s s' calls h step = record {
  own = ground (
    arith,
    monitor-append id (some registered) calls (record { id = id; hook = hook; fine = fine }),
    text_beq_iff id id,
  );
  others = λ j apart. ground (
    arith,
    monitor-append j (some registered) calls (record { id = id; hook = hook; fine = fine }),
  );
}

Leads-trans :
    (id : Text) (s s' : State) (a b c : List HookCall)
    → Leads id s a b
    → Leads id s' b c
    → Leads id s' a c
Leads-trans id s s' a b c l k = record {
  own = k.own;
  others = λ j apart. k.others j apart ∙ l.others j apart;
}

-- What a call on an instance comes to: the calls lead to the state that the instance then has, and its
-- plugin is the one it had.
pub record Moved {E : Type 0} (id : Text) (p : Plugin E) (calls : List HookCall)
    (r : (GoError × Instance (Recorded E)) × Recorded E) : Type 0 where
  pub leads : Leads id r.0.1.state calls r.1.1
  pub same : r.0.1.plugin ≡ traced id p

Moved-after :
    {E : Type 0} {id : Text} {p : Plugin E} {s : State} {a b : List HookCall}
    {r : (GoError × Instance (Recorded E)) × Recorded E}
    → Leads id s a b
    → Moved id p b r
    → Moved id p a r
Moved-after {id = id} {s = s} {a = a} {b = b} {r = r} l q = record {
  leads = Leads-trans id s r.0.1.state a b r.1.1 l q.leads;
  same = q.same;
}

-- Cleanup never fails.
pub record Cleans {E : Type 0} (iso : IsolationStrategy E) : Type 0 where
  pub cleans : (info : Info) (env : E) → (iso.cleanup info env).0 ≡ nil

module _ {E : Type 0} (iso : IsolationStrategy E) (res : Config) (id : Text) (p : Plugin E)
    (inst : Instance (Recorded E)) where
  -- the instance, with the recorded plugin, in a state
  abbrev at : State → Instance (Recorded E)
  at s = record inst { plugin = traced id p; state = s }

  abbrev context : ExecutionContext
  context = clone (record { config = some inst.config; resources = some res })

  activate-Moved :
      (s : State) (env : E) (calls : List HookCall)
      → ((fine : Bool) → advance s Hook.start fine ≡ some (if fine then started else s))
      → reached id calls ≡ some s
      → Moved id p calls (activate (traced_strategy iso) res id (at s) (env, calls))
  unfolding activate ◌>>=◌ traced traced_strategy record_hook lift
  activate-Moved s env calls step h = elim (Bool-cases (is_nil (iso.prepare inst.info env).0)) [
    | inr refused ↦ rw refused (record { leads = stay id s calls h; same = refl })
    | inl prepared ↦
        let outcome = (p.start context (iso.prepare inst.info env).1).0 in
        elim (Bool-cases (is_nil outcome)) [
          | inl fine ↦
              rw (prepared, fine)
                (record {
                  leads = hooked id Hook.start true s started calls h (step true);
                  same = refl;
                })
          | inr failed ↦
              rw (prepared, failed)
                (record {
                  leads = hooked id Hook.start false s s calls h (step false);
                  same = refl;
                })
        ]
  ]

  pub start_instance-Moved :
      (s : State) (env : E) (calls : List HookCall)
      → reached id calls ≡ some s
      → Moved id p calls (start_instance (traced_strategy iso) res id (at s) s (env, calls))
  unfolding start_instance ◌>>=◌ pure traced record_hook advance
  start_instance-Moved started env calls h = record { leads = stay id started calls h; same = refl }
  start_instance-Moved registered env calls h = elim (Bool-cases (is_nil (p.init context env).0)) [
    | inl fine ↦
        let first = hooked id Hook.init true registered initialised calls h refl in
        rw fine (
          Moved-after first
            (activate-Moved initialised (p.init context env).1 _ (λ fine. refl) first.own))
    | inr failed ↦ rw failed (record {
      leads = hooked id Hook.init false registered registered calls h refl;
      same = refl;
    })
  ]
  start_instance-Moved initialised env calls h =
      activate-Moved initialised env calls (λ fine. refl) h
  start_instance-Moved stopped env calls h = activate-Moved stopped env calls (λ fine. refl) h

  pub stop_instance-Moved :
      (s : State) (env : E) (calls : List HookCall)
      → Cleans iso
      → reached id calls ≡ some s
      → Moved id p calls (stop_instance (traced_strategy iso) res id (at s) s (env, calls))
  unfolding stop_instance ◌>>=◌ pure traced traced_strategy record_hook lift advance
  stop_instance-Moved started env calls c h = elim (Bool-cases (is_nil (p.stop context env).0)) [
    | inl fine ↦
        rw (fine, c.cleans inst.info (p.stop context env).1)
          (record { leads = hooked id Hook.stop true started stopped calls h refl; same = refl })
    | inr failed ↦
        rw failed
          (record { leads = hooked id Hook.stop false started started calls h refl; same = refl })
  ]
  stop_instance-Moved registered env calls c h = record {
    leads = stay id registered calls h;
    same = refl;
  }
  stop_instance-Moved initialised env calls c h = record {
    leads = stay id initialised calls h;
    same = refl;
  }
  stop_instance-Moved stopped env calls c h = record {
    leads = stay id stopped calls h;
    same = refl;
  }
