-- ===== src/Config.antt =====
-- internal/config/config.go: the configuration, and the defaults that fill it in. The file and its JSON are left out.
pub mod Paths
pub mod Defaults
use open_mcp_chain.Prelude.{Bool, List, Text}
use open_mcp_chain.Prelude.Int.{ℤ}

pub record TaskStoreConfig : Type 0 where
  pub driver : Text
  pub dsn : Text
  pub retries : ℤ
  pub max_open_conns : ℤ
  pub max_idle_conns : ℤ
  pub conn_max_lifetime_seconds : ℤ
  pub conn_max_idle_time_seconds : ℤ

pub record AuthStoreConfig : Type 0 where
  pub driver : Text
  pub dsn : Text
  pub max_open_conns : ℤ
  pub max_idle_conns : ℤ
  pub conn_max_lifetime_seconds : ℤ
  pub conn_max_idle_time_seconds : ℤ

pub record RedisQueueConfig : Type 0 where
  pub address : Text
  pub password : Text
  pub db : ℤ
  pub queue : Text
  pub block_wait : ℤ

pub record RabbitQueueConfig : Type 0 where
  pub url : Text
  pub queue : Text
  pub prefetch : ℤ
  pub durable : Bool
  pub auto_delete : Bool

pub record TaskQueueConfig : Type 0 where
  pub driver : Text
  pub worker : ℤ
  pub redis : RedisQueueConfig
  pub rabbit_mq : RabbitQueueConfig

pub record LoggingConfig : Type 0 where
  pub level : Text
  pub format : Text
  pub outputs : List Text

pub record MetricsConfig : Type 0 where
  pub enabled : Bool
  pub address : Text

pub record AuditConfig : Type 0 where
  pub enabled : Bool
  pub file : Text
  pub max_size_mb : ℤ
  pub max_backups : ℤ
  pub max_age_days : ℤ

pub record JwtConfig : Type 0 where
  pub secret : Text
  pub secret_env : Text
  pub issuer : Text
  pub audience : Text
  pub access_token_ttl_seconds : ℤ
  pub refresh_token_ttl_seconds : ℤ

pub record OauthConfig : Type 0 where
  pub token_url : Text
  pub introspection_url : Text
  pub client_id : Text
  pub client_secret : Text
  pub scopes : List Text
  pub timeout_seconds : ℤ
  pub username_claim : Text

pub record UserSeed : Type 0 where
  pub username : Text
  pub password : Text
  pub roles : List Text
  pub permissions : List Text
  pub disabled : Bool

pub record AuthConfig : Type 0 where
  pub mode : Text
  pub jwt : JwtConfig
  pub oauth : OauthConfig
  pub seeds : List UserSeed

pub record PythonBridgeConfig : Type 0 where
  pub enabled : Bool
  pub python_executable : Text
  pub script_path : Text
  pub working_dir : Text

pub record OpenAiConfig : Type 0 where
  pub enabled : Bool
  pub api_key : Text
  pub api_key_env : Text
  pub base_url : Text
  pub model : Text
  pub timeout_seconds : ℤ

pub record LlmConfig : Type 0 where
  pub provider : Text
  pub python : PythonBridgeConfig
  pub open_ai : OpenAiConfig

pub record Web3Config : Type 0 where
  pub rpc_url : Text
  pub chain_config : Text
  pub default_chain : Text

pub record KnowledgeConfig : Type 0 where
  pub source : Text
  pub max_results : ℤ

-- The records of one field, and those that only group others, are taken apart: `address` of the server, `data_dir`
-- of the runtime, `memory_depth` of the agent, and the two stores, the logging, the metrics and the audit.
pub record Config : Type 0 where
  pub address : Text
  pub task_store : TaskStoreConfig
  pub auth_store : AuthStoreConfig
  pub llm : LlmConfig
  pub web3 : Web3Config
  pub memory_depth : ℤ
  pub data_dir : Text
  pub knowledge : KnowledgeConfig
  pub task_queue : TaskQueueConfig
  pub logging : LoggingConfig
  pub metrics : MetricsConfig
  pub audit : AuditConfig
  pub auth : AuthConfig
