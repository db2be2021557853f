-- ===== src/Plugin/Manager.antt =====
-- pkg/plugin/manager.go and the options of plugin.go. The resources and the options of New are given by what
-- they set. A call runs to its end before the next one starts.
use open_mcp_chain.Prelude.{
  Bool, not, ◌&&◌, Option, none, some, List, [], ◌∷◌, ◌++◌, map, Text, txt, text_eq, ◌==◌, is_empty,
  if◌then◌else◌,
}
use open_mcp_chain.Prelude.Map.{Map, lookup, insert, copy_into}
use open_mcp_chain.Errors.Value.{GoError, nil, plain, wrapped, is_nil, error_text}
use open_mcp_chain.Task.Interfaces.{Action, pure, ◌>>=◌}
use open_mcp_chain.Plugin.{
  State, registered, initialised, started, stopped, Info, IsolationPolicy, Config, ExecutionContext,
  clone, Plugin, IsolationStrategy, loaded, refused, Loader,
}
use open_mcp_chain.Plugin.Isolation.{merge_policies, ensure_policy, new_isolation_strategy}

pub record Instance (W : Type 0) : Type 0 where
  pub plugin : Plugin W
  pub info : Info
  pub state : State
  pub config : Config
  pub policy : IsolationPolicy
  pub source : Text

pub record Manager (W : Type 0) : Type 0 where
  pub registry : Map Text (Instance W)
  pub loader : Loader W
  pub isolation : IsolationStrategy W
  pub resources : Config
  pub defaults : IsolationPolicy

-- &PluginConfig{...}
pub record PluginConfig : Type 0 where
  pub enabled : Bool
  pub path : Text
  pub config : Option Config
  pub policy : Option IsolationPolicy

pub record ManagerConfig : Type 0 where
  pub plugin_dir : Text
  pub defaults : IsolationPolicy
  pub plugins : Map Text PluginConfig

-- the loop of ManagerConfig.Validate, in one order of the map
unfoldable pub validate_plugins : Map Text PluginConfig → GoError
validate_plugins [] = nil
validate_plugins ((id, p) ∷ plugins) =
    let rest = validate_plugins plugins in
    if is_empty id
    then plain (txt "plugin id cannot be empty")
    else if not p.enabled
    then rest
    else if is_empty p.path
    then plain (txt "plugin " ++ id ++ txt " path cannot be empty when enabled")
    else rest

-- mergeInfo
unfoldable pub merge_info : Info → Text → Info
merge_info info id = if is_empty info.id then record info { id = id } else info

-- fmt.Errorf("<stage> <id>: %w", err)
abbrev failing : Text → Text → GoError → GoError
failing stage id e = wrapped (stage ++ id ++ txt ": " ++ error_text e) e

abbrev not_registered : Text → GoError
not_registered id = plain (txt "plugin " ++ id ++ txt " not registered")

abbrev pub or_empty : Option Config → Config
or_empty none = []
or_empty (some c) = c

-- cloneConfig
unfoldable pub clone_config : Option Config → Option Config
clone_config none = some []
clone_config (some cfg) = some (copy_into [] cfg)

module _ {W : Type 0} where
  -- from the lock of Register on
  unfoldable pub enter : Text → Instance W → Action (Manager W × W) GoError
  enter id inst (m, w) = elim (lookup id m.registry) [
    | some _ ↦ (plain (txt "plugin " ++ id ++ txt " already registered"), (m, w))
    | none ↦ (nil, (record m { registry = insert id inst m.registry }, w))
  ]

  -- what Configure returned
  unfoldable pub configured :
      Text → Plugin W → IsolationPolicy → GoError × Config → Action (Manager W × W) GoError
  unfolding enter merge_info
  configured id p policy (e, cfg) =
      if is_nil e
      then enter id (record {
        plugin = p;
        info = merge_info p.info id;
        state = registered;
        config = cfg;
        policy = policy;
        source = txt "manual";
      })
      else pure (failing (txt "configure plugin ") id e)

  -- an action of a plugin or a strategy, which leaves the manager alone
  abbrev pub outside : {A : Type 0} → Action W A → Action (Manager W × W) A
  outside act (m, w) = let (a, w') = act w in (a, (m, w'))

  unfoldable pub register_plugin :
      Text → Plugin W → Option Config → IsolationPolicy → Action (Manager W × W) GoError
  unfolding configured merge_policies ensure_policy
  register_plugin id p cfg policy (m, w) =
      let merged = merge_policies m.defaults (some policy) in
      if not (is_empty p.info.id) && not (p.info.id == id)
      then (plain (txt "plugin id mismatch: " ++ p.info.id ++ txt " != " ++ id), (m, w))
      else if not (is_nil (ensure_policy p.info merged))
      then (ensure_policy p.info merged, (m, w))
      else (outside (m.isolation.validate p.info merged) >>= λ e.
            if is_nil e
            then (outside (p.configure (or_empty cfg)) >>= λ r. configured id p merged r)
            else pure e)
          (m, w)

  -- Register; a nil plugin is `none`
  unfoldable pub register :
      Text → Option (Plugin W) → Option Config → IsolationPolicy → Action (Manager W × W) GoError
  unfolding register_plugin
  register id p cfg policy s =
      if is_empty id then (plain (txt "plugin id cannot be empty"), s) else elim p [
        | none ↦ (plain (txt "plugin implementation cannot be nil"), s)
        | some p ↦ register_plugin id p cfg policy s
      ]

  unfoldable pub load :
      Text → Text → Option Config → IsolationPolicy → Action (Manager W × W) GoError
  unfolding register
  load id path cfg policy (m, w) =
      if is_empty path
      then (plain (txt "plugin path cannot be empty"), (m, w))
      else (outside (m.loader.load path) >>= λ r. elim r [
        | refused e ↦ pure (wrapped (txt "load plugin from " ++ path ++ txt ": " ++ error_text e) e)
        | loaded p ↦ register id p cfg policy
      ])
          (m, w)

  -- loadConfigured, in one order of the map; `resolve` joins a relative path to the plugin directory
  unfoldable pub load_configured :
      (Text → Text) → IsolationPolicy → Map Text PluginConfig → Action (Manager W × W) GoError
  unfolding load
  load_configured resolve defaults [] = pure nil
  load_configured resolve defaults ((id, p) ∷ plugins) =
      let rest = load_configured resolve defaults plugins in
      if not p.enabled
      then rest
      else (load id (resolve p.path) (clone_config p.config) (merge_policies defaults p.policy)
          >>= λ e. if is_nil e then rest else pure e)

  -- NewManager; the options are given by the function that they make up, and the default loader is
  -- GoPluginLoader
  unfoldable pub new_manager :
      Loader W
      → (Text → Text)
      → ManagerConfig
      → (Manager W → Manager W)
      → Action W (GoError × Option (Manager W))
  unfolding load_configured new_isolation_strategy validate_plugins
  new_manager default_loader resolve cfg opts w =
      let m = opts (record {
        registry = [];
        loader = default_loader;
        isolation = new_isolation_strategy none;
        resources = [];
        defaults = cfg.defaults;
      }) in
      let (e, (m', w')) = load_configured resolve cfg.defaults cfg.plugins (m, w) in
      if not (is_nil (validate_plugins cfg.plugins))
      then ((validate_plugins cfg.plugins, none), w)
      else if is_nil e
      then ((nil, some m'), w')
      else ((e, none), w')

  module _ (isolation : IsolationStrategy W) (resources : Config) where
    abbrev context : Instance W → ExecutionContext
    context inst = clone (record { config = some inst.config; resources = some resources })

    -- Start from the call of Prepare on, for an instance that is initialised
    unfoldable pub activate : Text → Instance W → Action W (GoError × Instance W)
    activate id inst = do
      prepared ← isolation.prepare inst.info
      if is_nil prepared
          then (do
            e ← inst.plugin.start (context inst)
            if is_nil e then pure (nil, record inst { state = started }) else (do
              _ ← isolation.cleanup inst.info
              pure (failing (txt "start plugin ") id e, inst)))
          else pure (failing (txt "prepare isolation for ") id prepared, inst)

    unfoldable pub start_instance : Text → Instance W → State → Action W (GoError × Instance W)
    unfolding activate
    start_instance id inst started = pure (nil, inst)
    start_instance id inst registered = do
      e ← inst.plugin.init (context inst)
      if is_nil e
          then activate id (record inst { state = initialised })
          else pure (failing (txt "initialise plugin ") id e, inst)
    start_instance id inst _ = activate id inst

    unfoldable pub stop_instance : Text → Instance W → State → Action W (GoError × Instance W)
    stop_instance id inst started = do
      e ← inst.plugin.stop (context inst)
      if is_nil e
          then (do
            e' ← isolation.cleanup inst.info
            pure (
                if is_nil e'
                then (nil, record inst { state = stopped })
                else (failing (txt "cleanup isolation for ") id e', inst)))
          else pure (failing (txt "stop plugin ") id e, inst)
    stop_instance id inst _ = pure (nil, inst)

  -- the instance is changed in place
  abbrev put_back : Text → Manager W → (GoError × Instance W) × W → GoError × (Manager W × W)
  put_back id m ((e, inst), w) = (e, (record m { registry = insert id inst m.registry }, w))

  unfoldable pub start : Text → Action (Manager W × W) GoError
  unfolding start_instance
  start id (m, w) = elim (lookup id m.registry) [
    | none ↦ (not_registered id, (m, w))
    | some inst ↦ put_back id m (start_instance m.isolation m.resources id inst inst.state w)
  ]

  unfoldable pub stop : Text → Action (Manager W × W) GoError
  unfolding stop_instance
  stop id (m, w) = elim (lookup id m.registry) [
    | none ↦ (not_registered id, (m, w))
    | some inst ↦ put_back id m (stop_instance m.isolation m.resources id inst inst.state w)
  ]

  -- the two loops over the ids, up to the first error
  unfoldable pub start_each : List Text → Action (Manager W × W) GoError
  start_each [] = pure nil
  start_each (id ∷ ids) = do e ← start id; if is_nil e then start_each ids else pure e

  unfoldable pub stop_each : List Text → Action (Manager W × W) GoError
  stop_each [] = pure nil
  stop_each (id ∷ ids) = do e ← stop id; if is_nil e then stop_each ids else pure e

  unfoldable pub start_all : Action (Manager W × W) GoError
  start_all (m, w) = start_each (map (λ e. e.0) m.registry) (m, w)

  unfoldable pub stop_all : Action (Manager W × W) GoError
  stop_all (m, w) = stop_each (map (λ e. e.0) m.registry) (m, w)

  unfoldable pub state : Text → Manager W → Option State × GoError
  state id m = elim (lookup id m.registry) [
    | none ↦ (none, not_registered id)
    | some inst ↦ (some inst.state, nil)
  ]
