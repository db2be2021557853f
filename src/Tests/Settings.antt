-- ===== src/Tests/Settings.antt =====
-- The defaults of a configuration that sets almost nothing.
use open_mcp_chain.Prelude.{◌≡◌, refl, true, false, [], txt}
use open_mcp_chain.Prelude.Int.{pos, negsuc}
use open_mcp_chain.Config.{Config}
use open_mcp_chain.Config.Paths.{is_abs}
use open_mcp_chain.Config.Defaults.{apply_config_defaults}
use open_mcp_chain.Config.Defaults.Idempotence.{apply_config_defaults_idem}

abbrev sparse : Config
sparse = record {
  address = [];
  task_store = record {
    driver = txt "mysql";
    dsn = [];
    retries = negsuc 0;
    max_open_conns = pos 0;
    max_idle_conns = pos 4;
    conn_max_lifetime_seconds = pos 0;
    conn_max_idle_time_seconds = negsuc 3;
  };
  auth_store = record {
    driver = [];
    dsn = [];
    max_open_conns = pos 0;
    max_idle_conns = pos 0;
    conn_max_lifetime_seconds = pos 0;
    conn_max_idle_time_seconds = pos 0;
  };
  llm = record {
    provider = [];
    python = record {
      enabled = true;
      python_executable = [];
      script_path = [];
      working_dir = txt "../scripts";
    };
    open_ai = record {
      enabled = false;
      api_key = [];
      api_key_env = [];
      base_url = [];
      model = [];
      timeout_seconds = pos 0;
    };
  };
  web3 = record { rpc_url = []; chain_config = txt "chain.yaml"; default_chain = [] };
  memory_depth = pos 0;
  data_dir = txt "./data";
  knowledge = record { source = []; max_results = pos 0 };
  task_queue = record {
    driver = [];
    worker = pos 4;
    redis = record { address = []; password = []; db = pos 0; queue = []; block_wait = pos 0 };
    rabbit_mq = record {
      url = [];
      queue = [];
      prefetch = pos 0;
      durable = true;
      auto_delete = false;
    };
  };
  logging = record { level = []; format = []; outputs = [] };
  metrics = record { enabled = false; address = [] };
  audit = record {
    enabled = false;
    file = [];
    max_size_mb = pos 0;
    max_backups = pos 0;
    max_age_days = pos 0;
  };
  auth = record {
    mode = txt " ";
    jwt = record {
      secret = [];
      secret_env = [];
      issuer = [];
      audience = [];
      access_token_ttl_seconds = pos 0;
      refresh_token_ttl_seconds = pos 0;
    };
    oauth = record {
      token_url = [];
      introspection_url = [];
      client_id = [];
      client_secret = [];
      scopes = [];
      timeout_seconds = pos 0;
      username_claim = [];
    };
    seeds = [];
  };
}

etc_is_abs : is_abs (txt "/etc/openmcp") ≡ true
unfolding is_abs
etc_is_abs = refl

apply_config_defaults_idem_example :
    apply_config_defaults (txt "/etc/openmcp") (apply_config_defaults (txt "/etc/openmcp") sparse)
    ≡ apply_config_defaults (txt "/etc/openmcp") sparse
apply_config_defaults_idem_example =
    apply_config_defaults_idem (txt "/etc/openmcp") sparse etc_is_abs
