-- ===== src/Agent/Outcomes.antt =====
-- What Execute returns.
use open_mcp_chain.Prelude.{
  ℕ, ◌≡◌, refl, ap, true, false, ◌⊎◌, inl, inr, Option, none, some, List, [], ◌∷◌, Text, txt,
  text_eq, is_empty, trim_space, is_space, Bool-cases,
}
use open_mcp_chain.Errors.Registry.{
  Code, code_initialization_failure, code_invalid_argument, code_timeout, code_executor_failure,
  code_storage_failure,
}
use open_mcp_chain.Errors.Value.{GoError, nil, unified, is_nil, new, wrap}
use open_mcp_chain.Errors.Reading.{code_of}
use open_mcp_chain.Task.Interfaces.{Action, pure, ◌>>=◌, Result, ok, err, TaskRequest}
use open_mcp_chain.Task.Types.{task_registry}
use open_mcp_chain.Storage.{TaskRecord}
use open_mcp_chain.Agent.{
  TaskResult, LlmRequest, LlmClient, LlmResponse, ChainSnapshot, TaskRepository, Agent,
}
use open_mcp_chain.Agent.Execution.{
  is_deadline_exceeded, task_record, result_of, execute_with, llm_failed, task_result, store_result,
  after_generate, consult_chain, load_history, collect_knowledge, append_observation, reason,
  execute,
}

-- A result of the request, with something observed.
abbrev IsAnswer : TaskRequest → TaskResult → Type 0
IsAnswer req result =
    (result.goal ≡ req.goal)
    × (result.chain_action ≡ req.chain_action)
    × (result.address ≡ req.address)
    × (is_empty (trim_space result.observations) ≡ false)

abbrev IsListed : Code → List Code → Type 0
IsListed code [] = ⊥
IsListed code (c ∷ codes) = (code ≡ c) ⊎ IsListed code codes

-- the codes of the errors of Execute
abbrev pub execute_codes : List Code
execute_codes =
    code_initialization_failure ∷ code_invalid_argument ∷ code_timeout ∷ code_executor_failure
    ∷ code_storage_failure ∷ []

-- The result was stored last, by a call that returned no error, as the record that ListHistory reads as it.
abbrev pub IsStored : {W : Type 0} → Option (TaskRepository W) → TaskResult → W → Type 0
IsStored none result w' = Unit {0}
IsStored {W = W} (some repo) result w' =
    (stored : TaskRecord) × (w : W) × (repo.create stored w ≡ (nil, w'))
    × (result_of stored ≡ result)

-- An answer that is stored, or an error with one of those codes.
abbrev pub IsOutcome :
    {W : Type 0} → Option (TaskRepository W) → TaskRequest → Result TaskResult × W → Type 0
IsOutcome repo req (ok result, w') = IsAnswer req result × IsStored repo result w'
IsOutcome repo req (err e, w') = IsListed (code_of e) execute_codes

code_of-wrap :
    (code : Code) (cause : GoError) (message : Text)
    → code_of (unified (wrap task_registry code cause message [])) ≡ code
unfolding code_of wrap
code_of-wrap code cause message = refl

code_of-new :
    (code : Code) (message : Text) → code_of (unified (new task_registry code message [])) ≡ code
unfolding code_of new
code_of-new code message = refl

task_result-IsAnswer :
    (req : TaskRequest) (output : LlmResponse) (chain : ChainSnapshot) (observations : Text)
    (now : ℕ)
    → IsAnswer req (task_result req output chain observations now)
unfolding task_result trim_space is_space
task_result-IsAnswer req output chain observations now = (
  refl,
  refl,
  refl,
  elim (Bool-cases (is_empty (trim_space observations))) [
    | inl blank ↦ rw blank refl
    | inr filled ↦ rw (filled, filled)
  ],
)

llm_failed-IsOutcome :
    {W : Type 0} (repo : Option (TaskRepository W)) (req : TaskRequest) (e : GoError) (w : W)
    → IsOutcome repo req (llm_failed e, w)
unfolding llm_failed
llm_failed-IsOutcome repo req e w = elim (Bool-cases (is_deadline_exceeded e)) [
  | inl late ↦ rw late (inr (inr (inl (code_of-wrap code_timeout e (txt "大模型推理超时")))))
  | inr other ↦
      rw other (inr (inr (inr (inl (code_of-wrap code_executor_failure e (txt "大模型推理失败"))))))
]

nil_of_is_nil : (e : GoError) → is_nil e ≡ true → e ≡ nil
nil_of_is_nil nil h = refl
nil_of_is_nil _ h = cc

module _ {W : Type 0} (req : TaskRequest) where
  store_result-IsOutcome :
      (repo : Option (TaskRepository W)) (result : TaskResult) (w : W)
      → IsAnswer req result
      → IsOutcome repo req (store_result repo result w)
  unfolding store_result ◌>>=◌ task_record result_of
  store_result-IsOutcome none result w h = (h, tt)
  store_result-IsOutcome (some repo) result w h =
      elim (Bool-cases (is_nil (repo.create (task_record result) w).0)) [
        | inl fine ↦ rw fine (
          h,
          (
            task_record result,
            w,
            ap (λ e. (e, (repo.create (task_record result) w).1))
                (nil_of_is_nil (repo.create (task_record result) w).0 fine),
            refl,
          ),
        )
        | inr refused ↦ rw refused (
            inr (
              inr (
                inr (
                  inr (
                    inl (
                      code_of-wrap code_storage_failure (repo.create (task_record result) w).0
                        (txt "保存任务记录失败")))))))
      ]

  after_generate-IsOutcome :
      (a : Agent W) (clock : Action W ℕ) (observations : Text) (output : Result LlmResponse) (w : W)
      → IsOutcome a.task_storage req (after_generate a clock req observations output w)
  unfolding after_generate ◌>>=◌
  after_generate-IsOutcome a clock observations (err e) w =
      llm_failed-IsOutcome a.task_storage req e w
  after_generate-IsOutcome a clock observations (ok output) w =
      let ((chain, noted), w₁) =
        consult_chain a.web3_client observations req.chain_action req.address w in
      let (now, w₂) = clock w₁ in
      store_result-IsOutcome a.task_storage (task_result req output chain noted now) w₂
        (task_result-IsAnswer req output chain noted now)

  reason-IsOutcome :
      (a : Agent W) (client : LlmClient W) (clock : Action W ℕ) (w : W)
      → IsOutcome a.task_storage req (reason a client clock req w)
  unfolding reason ◌>>=◌
  reason-IsOutcome a client clock w =
      let (history, w₁) = load_history a.task_storage a.memory_depth w in
      let (cards, hint) = collect_knowledge a.knowledge req.goal req.chain_action in
      let asked : LlmRequest = record {
        goal = req.goal;
        chain_action = req.chain_action;
        address = req.address;
        history = history.0;
        knowledge = cards;
      } in
      let (output, w₂) = client.generate a.llm_timeout asked w₁ in
      after_generate-IsOutcome a clock (append_observation history.1 hint) output w₂

  -- Whatever the clients, the repository and the knowledge base do: Execute returns an answer to the request, with
  -- observations that are not blank, which a repository, if there is one, has stored by its last call as a record
  -- that ListHistory reads as the same result; or an error with one of five codes.
  pub execute-IsOutcome :
      (a : Agent W) (clock : Action W ℕ) (w : W)
      → IsOutcome a.task_storage req (execute a clock req w)
  unfolding execute pure
  execute-IsOutcome a clock w = from a.llm_client
    where
      from :
          (c : Option (LlmClient W)) → IsOutcome a.task_storage req (execute_with c a clock req w)
      from none = inl (code_of-new code_initialization_failure (txt "未配置大模型客户端"))
      from (some client) = elim (Bool-cases (is_empty req.goal)) [
        | inl blank ↦ rw blank (inr (inl (code_of-new code_invalid_argument (txt "任务目标不能为空"))))
        | inr given ↦ rw given (reason-IsOutcome a client clock w)
      ]
