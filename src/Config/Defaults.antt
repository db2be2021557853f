-- ===== src/Config/Defaults.antt =====
-- internal/config/config.go: applyDefaults, one part of the configuration after the other.
pub mod Idempotence
use open_mcp_chain.Prelude.{
  ℕ, Bool, true, false, not, ◌&&◌, List, [], ◌∷◌, Text, txt, is_empty, trim_space, if◌then◌else◌,
}
use open_mcp_chain.Prelude.Int.{ℤ, pos, leb_ℤ, ltb_ℤ}
use open_mcp_chain.Config.{
  TaskStoreConfig, AuthStoreConfig, RedisQueueConfig, RabbitQueueConfig, TaskQueueConfig,
  LoggingConfig, MetricsConfig, AuditConfig, JwtConfig, OauthConfig, AuthConfig, PythonBridgeConfig,
  OpenAiConfig, LlmConfig, Web3Config, KnowledgeConfig, Config,
}
use open_mcp_chain.Config.Paths.{is_abs, join}

-- if s == "" { s = d }
unfoldable pub or_text : Text → Text → Text
or_text s d = if is_empty s then d else s

-- if n <= 0 { n = d }
unfoldable pub or_positive : ℤ → ℤ → ℤ
or_positive n d = if leb_ℤ n (pos 0) then d else n

-- if n < 0 { n = 0 }
unfoldable pub or_zero : ℤ → ℤ
or_zero n = if ltb_ℤ n (pos 0) then pos 0 else n

-- if s != "" && !filepath.IsAbs(s) { s = filepath.Join(baseDir, s) }
unfoldable pub resolved : Text → Text → Text
unfolding is_abs join
resolved base s = if not (is_empty s) && not (is_abs s) then join base s else s

-- if s == "" { s = d } else if !filepath.IsAbs(s) { s = filepath.Join(baseDir, s) }
unfoldable pub resolved_or : Text → Text → Text → Text
unfolding is_abs join
resolved_or base s d = if is_empty s then d else if not (is_abs s) then join base s else s

unfoldable pub task_store_defaults : TaskStoreConfig → TaskStoreConfig
unfolding or_text or_positive or_zero
task_store_defaults c = record c {
  driver = or_text c.driver (txt "memory");
  retries = or_positive c.retries (pos 3);
  max_open_conns = or_positive c.max_open_conns (pos 20);
  max_idle_conns = or_positive c.max_idle_conns (pos 10);
  conn_max_lifetime_seconds = or_positive c.conn_max_lifetime_seconds (pos 1800);
  conn_max_idle_time_seconds = or_zero c.conn_max_idle_time_seconds;
}

-- `driver` is the one of the task store.
unfoldable pub auth_store_defaults : Text → AuthStoreConfig → AuthStoreConfig
unfolding or_text or_positive or_zero
auth_store_defaults driver c = record c {
  driver = or_text c.driver driver;
  max_open_conns = or_positive c.max_open_conns (pos 10);
  max_idle_conns = or_positive c.max_idle_conns (pos 5);
  conn_max_lifetime_seconds = or_positive c.conn_max_lifetime_seconds (pos 1800);
  conn_max_idle_time_seconds = or_zero c.conn_max_idle_time_seconds;
}

unfoldable pub llm_defaults : Text → LlmConfig → LlmConfig
unfolding or_text or_positive resolved_or
llm_defaults base c = record {
  provider = or_text c.provider (txt "python_bridge");
  python = record c.python {
    python_executable = or_text c.python.python_executable (txt "python3");
    working_dir = resolved_or base c.python.working_dir base;
  };
  open_ai = record c.open_ai {
    base_url = or_text c.open_ai.base_url (txt "https://api.openai.com/v1");
    model = or_text c.open_ai.model (txt "gpt-4o-mini");
    timeout_seconds = or_positive c.open_ai.timeout_seconds (pos 60);
  };
}

abbrev pub or_stdout : List Text → List Text
or_stdout [] = txt "stdout" ∷ []
or_stdout (o ∷ outputs) = o ∷ outputs

unfoldable pub logging_defaults : LoggingConfig → LoggingConfig
unfolding or_text
logging_defaults c = record {
  level = or_text c.level (txt "info");
  format = or_text c.format (txt "json");
  outputs = or_stdout c.outputs;
}

-- `if !Enabled { Enabled = true }`, in both
unfoldable pub metrics_defaults : MetricsConfig → MetricsConfig
metrics_defaults c = record c { enabled = true }

unfoldable pub audit_defaults : Text → Text → AuditConfig → AuditConfig
unfolding or_positive resolved_or join
audit_defaults base data_dir c = record {
  enabled = true;
  file = resolved_or base c.file (join data_dir (txt "audit.log"));
  max_size_mb = or_positive c.max_size_mb (pos 100);
  max_backups = or_positive c.max_backups (pos 7);
  max_age_days = or_positive c.max_age_days (pos 30);
}

unfoldable pub task_queue_defaults : TaskQueueConfig → TaskQueueConfig
unfolding or_text or_positive
task_queue_defaults c =
    let worker = or_positive c.worker (pos 1) in
    record {
      driver = or_text c.driver (txt "memory");
      worker = worker;
      redis = record c.redis {
        queue = or_text c.redis.queue (txt "openmcp:tasks");
        block_wait = or_positive c.redis.block_wait (pos 5);
      };
      rabbit_mq = record c.rabbit_mq {
        queue = or_text c.rabbit_mq.queue (txt "openmcp.tasks");
        prefetch = or_positive c.rabbit_mq.prefetch worker;
      };
    }

-- if strings.TrimSpace(mode) == "" { mode = "disabled" }
unfoldable pub or_disabled : Text → Text
or_disabled mode = if is_empty (trim_space mode) then txt "disabled" else mode

unfoldable pub auth_defaults : AuthConfig → AuthConfig
unfolding or_text or_positive or_disabled
auth_defaults c = record {
  mode = or_disabled c.mode;
  jwt = record c.jwt {
    access_token_ttl_seconds = or_positive c.jwt.access_token_ttl_seconds (pos 3600);
    refresh_token_ttl_seconds = or_positive c.jwt.refresh_token_ttl_seconds (pos 86400);
  };
  oauth = record c.oauth {
    timeout_seconds = or_positive c.oauth.timeout_seconds (pos 15);
    username_claim = or_text c.oauth.username_claim (txt "username");
  };
  seeds = c.seeds;
}

unfoldable pub apply_config_defaults : Text → Config → Config
apply_config_defaults base c =
    let task_store = task_store_defaults c.task_store in
    let data_dir = resolved_or base c.data_dir (join base (txt "data")) in
    record {
      address = or_text c.address (txt ":8080");
      task_store = task_store;
      auth_store = auth_store_defaults task_store.driver c.auth_store;
      llm = llm_defaults base c.llm;
      web3 = record c.web3 { chain_config = resolved base c.web3.chain_config };
      memory_depth = or_positive c.memory_depth (pos 5);
      data_dir = data_dir;
      knowledge = record {
        source = resolved base c.knowledge.source;
        max_results = or_positive c.knowledge.max_results (pos 3);
      };
      task_queue = task_queue_defaults c.task_queue;
      logging = logging_defaults c.logging;
      metrics = metrics_defaults c.metrics;
      audit = audit_defaults base data_dir c.audit;
      auth = auth_defaults c.auth;
    }
