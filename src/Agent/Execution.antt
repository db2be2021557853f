-- ===== src/Agent/Execution.antt =====
-- internal/agent/agent.go: Execute and ListHistory.
use open_mcp_chain.Prelude.{
  ℕ, Bool, ◌&&◌, Option, none, some, List, [], ◌∷◌, ◌++◌, map, Text, txt, text_eq, is_empty,
  trim_space, if◌then◌else◌,
}
use open_mcp_chain.Prelude.Int.{ℤ, pos, leb_ℤ}
use open_mcp_chain.Errors.Registry.{
  code_initialization_failure, code_invalid_argument, code_timeout, code_executor_failure,
  code_storage_failure,
}
use open_mcp_chain.Errors.Value.{GoError, unified, is_nil, new, wrap, error_text}
use open_mcp_chain.Errors.Reading.{is_sentinel}
use open_mcp_chain.Task.Types.{task_registry}
use open_mcp_chain.Task.Interfaces.{Action, pure, ◌>>=◌, Result, ok, err, TaskRequest}
use open_mcp_chain.Knowledge.{Snippet}
use open_mcp_chain.Storage.{TaskRecord}
use open_mcp_chain.Agent.{
  TaskResult, HistoryEntry, KnowledgeCard, LlmResponse, ChainSnapshot, LlmClient, Web3Client,
  TaskRepository, Agent,
}

unfoldable pub append_observation : Text → Text → Text
append_observation existing next =
    let next' = trim_space next in
    if is_empty next'
    then existing
    else if is_empty (trim_space existing)
    then next'
    else existing ++ txt "\n" ++ next'

-- errors.Is(err, context.DeadlineExceeded)
unfoldable pub is_deadline_exceeded : GoError → Bool
unfolding is_sentinel
is_deadline_exceeded e = is_sentinel (txt "context deadline exceeded") e

unfoldable pub history_entry : TaskRecord → HistoryEntry
history_entry r = record {
  goal = r.goal;
  chain_action = r.chain_action;
  address = r.address;
  reply = r.reply;
  observations = r.observes;
  created_at = r.created_at;
}

-- the conversion in ListHistory
unfoldable pub result_of : TaskRecord → TaskResult
result_of r = record {
  goal = r.goal;
  chain_action = r.chain_action;
  address = r.address;
  thought = r.thought;
  reply = r.reply;
  chain_id = r.chain_id;
  block_number = r.block_number;
  observations = r.observes;
  created_at = r.created_at;
}

-- the loop of collectKnowledge: the cards, and the titles
unfoldable pub knowledge_cards : List Snippet → List KnowledgeCard
knowledge_cards [] = []
knowledge_cards (s ∷ snippets) =
    let rest = knowledge_cards snippets in
    if is_empty (trim_space s.title) && is_empty (trim_space s.content)
    then rest
    else record { title = s.title; content = s.content } ∷ rest

unfoldable pub knowledge_titles : List Snippet → List Text
knowledge_titles [] = []
knowledge_titles (s ∷ snippets) =
    let rest = knowledge_titles snippets in
    if is_empty (trim_space s.title) && is_empty (trim_space s.content)
    then rest
    else if is_empty s.title
    then rest
    else s.title ∷ rest

-- strings.Join(titles, "；") after the prefix
titles_text : List Text → Text
titles_text [] = []
titles_text (t ∷ []) = t
titles_text (t ∷ u ∷ rest) = t ++ txt "；" ++ titles_text (u ∷ rest)

abbrev knowledge_hint : List Text → Text
knowledge_hint [] = []
knowledge_hint (t ∷ rest) = txt "知识库提示: " ++ titles_text (t ∷ rest)

unfoldable pub collect_knowledge :
    Option (Text → Text → List Snippet) → Text → Text → List KnowledgeCard × Text
unfolding knowledge_cards knowledge_titles titles_text
collect_knowledge none goal chain_action = ([], [])
collect_knowledge (some query) goal chain_action =
    let snippets = query goal chain_action in
    (knowledge_cards snippets, knowledge_hint (knowledge_titles snippets))

abbrev pub failed : {A : Type 0} → Text → GoError → Text → Result A
failed code cause message = err (unified (wrap task_registry code cause message []))

-- the error of Generate
unfoldable pub llm_failed : {A : Type 0} → GoError → Result A
unfolding is_deadline_exceeded
llm_failed e =
    if is_deadline_exceeded e
    then failed code_timeout e (txt "大模型推理超时")
    else failed code_executor_failure e (txt "大模型推理失败")

-- the result, and the record that is stored
unfoldable pub task_result : TaskRequest → LlmResponse → ChainSnapshot → Text → ℕ → TaskResult
task_result req output chain observations now = record {
  goal = req.goal;
  chain_action = req.chain_action;
  address = req.address;
  thought = output.thought;
  reply = output.reply;
  chain_id = chain.chain_id;
  block_number = chain.block_number;
  observations = if is_empty (trim_space observations) then txt "未执行任何链上操作" else observations;
  created_at = now;
}

unfoldable pub task_record : TaskResult → TaskRecord
task_record r = record {
  id = 0;
  goal = r.goal;
  chain_action = r.chain_action;
  address = r.address;
  thought = r.thought;
  reply = r.reply;
  chain_id = r.chain_id;
  block_number = r.block_number;
  observes = r.observations;
  created_at = r.created_at;
  updated_at = r.created_at;
}

abbrev no_snapshot : ChainSnapshot
no_snapshot = record { chain_id = []; block_number = [] }

abbrev history_of : Result (List TaskRecord) → List HistoryEntry × Text
history_of (ok records) = (map history_entry records, [])
history_of (err e) = ([], append_observation [] (txt "加载历史任务失败: " ++ error_text e))

abbrev snapshot_of : Text → Result ChainSnapshot → ChainSnapshot × Text
snapshot_of observations (ok snapshot) = (snapshot, observations)
snapshot_of observations (err e) =
    (no_snapshot, append_observation observations (txt "获取链上信息失败: " ++ error_text e))

abbrev action_text : Text → Text → Result Text → Text
action_text observations action (ok text) =
    append_observation observations (action ++ txt " 返回: " ++ text)
action_text observations action (err e) =
    append_observation observations (txt "执行链上操作失败: " ++ error_text e)

abbrev results_of : Result (List TaskRecord) → Result (List TaskResult)
results_of (ok records) = ok (map result_of records)
results_of (err e) = failed code_storage_failure e (txt "查询任务记录失败")

module _ {W : Type 0} where
  unfoldable pub load_history : Option (TaskRepository W) → ℤ → Action W (List HistoryEntry × Text)
  unfolding history_entry append_observation
  load_history none depth = pure ([], [])
  load_history (some repo) depth =
      if leb_ℤ depth (pos 0)
      then pure ([], [])
      else (do found ← repo.list_latest depth; pure (history_of found))

  -- the two calls of the chain client, from the observations so far
  unfoldable pub consult_chain :
      Option (Web3Client W) → Text → Text → Text → Action W (ChainSnapshot × Text)
  unfolding append_observation
  consult_chain none observations action address = pure (no_snapshot, txt "未配置 Web3 客户端")
  consult_chain (some client) observations action address = do
    fetched ← client.fetch_chain_snapshot
    let (chain, noted) = snapshot_of observations fetched
    if is_empty action then pure (chain, noted) else (do
      done ← client.execute_action action address
      pure (chain, action_text noted action done))

  unfoldable pub store_result :
      Option (TaskRepository W) → TaskResult → Action W (Result TaskResult)
  unfolding task_record
  store_result none result = pure (ok result)
  store_result (some repo) result = do
    e ← repo.create (task_record result)
    pure (if is_nil e then ok result else failed code_storage_failure e (txt "保存任务记录失败"))

  -- what Generate returned
  unfoldable pub after_generate :
      Agent W → Action W ℕ → TaskRequest → Text → Result LlmResponse → Action W (Result TaskResult)
  unfolding llm_failed consult_chain task_result store_result
  after_generate a clock req observations (err e) = pure (llm_failed e)
  after_generate a clock req observations (ok output) = do
    consulted ← consult_chain a.web3_client observations req.chain_action req.address
    now ← clock
    store_result a.task_storage (task_result req output consulted.0 consulted.1 now)

  -- Execute with an LLM client, from the loading of the history on
  unfoldable pub reason :
      Agent W → LlmClient W → Action W ℕ → TaskRequest → Action W (Result TaskResult)
  unfolding load_history collect_knowledge append_observation after_generate
  reason a client clock req = do
    history ← load_history a.task_storage a.memory_depth
    let (cards, hint) = collect_knowledge a.knowledge req.goal req.chain_action
    output ← client.generate a.llm_timeout (record {
      goal = req.goal;
      chain_action = req.chain_action;
      address = req.address;
      history = history.0;
      knowledge = cards;
    })
    after_generate a clock req (append_observation history.1 hint) output

  abbrev pub execute_with :
      Option (LlmClient W) → Agent W → Action W ℕ → TaskRequest → Action W (Result TaskResult)
  execute_with none a clock req =
      pure (err (unified (new task_registry code_initialization_failure (txt "未配置大模型客户端") [])))
  execute_with (some client) a clock req =
      if is_empty req.goal
      then pure (err (unified (new task_registry code_invalid_argument (txt "任务目标不能为空") [])))
      else reason a client clock req

  -- `clock` reads time.Now.
  unfoldable pub execute : Agent W → Action W ℕ → TaskRequest → Action W (Result TaskResult)
  unfolding reason
  execute a clock req = execute_with a.llm_client a clock req

  abbrev list_history_in : Option (TaskRepository W) → ℤ → Action W (Result (List TaskResult))
  list_history_in none limit =
      pure (err (unified (new task_registry code_initialization_failure (txt "未配置任务仓库") [])))
  list_history_in (some repo) limit = do found ← repo.list_latest limit; pure (results_of found)

  unfoldable pub list_history : Agent W → ℤ → Action W (Result (List TaskResult))
  unfolding result_of
  list_history a limit = list_history_in a.task_storage limit
