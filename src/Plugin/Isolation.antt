-- ===== src/Plugin/Isolation.antt =====
-- pkg/plugin/isolation.go and the policies of config.go.
use open_mcp_chain.Prelude.{
  Bool, true, false, ◌&&◌, Option, none, some, List, [], ◌∷◌, ◌++◌, txt, text_eq, contains,
  if◌then◌else◌,
}
use open_mcp_chain.Errors.Value.{GoError, nil, plain}
use open_mcp_chain.Task.Interfaces.{pure}
use open_mcp_chain.Plugin.{Capability, Info, IsolationPolicy, IsolationStrategy}

abbrev pub is_none : List Capability → Bool
is_none [] = true
is_none _ = false

-- IsolationPolicy.Merge
unfoldable pub merge : IsolationPolicy → IsolationPolicy → IsolationPolicy
merge p other = record {
  allowed_capabilities =
      if is_none p.allowed_capabilities then other.allowed_capabilities else p.allowed_capabilities;
  denied_capabilities =
      if is_none p.denied_capabilities then other.denied_capabilities else p.denied_capabilities;
}

unfoldable pub merge_policies : IsolationPolicy → Option IsolationPolicy → IsolationPolicy
unfolding merge
merge_policies defaults none = defaults
merge_policies defaults (some plugin) =
    let merged = merge plugin defaults in
    if is_none merged.allowed_capabilities && is_none merged.denied_capabilities
    then defaults
    else merged

unfoldable pub ensure_policy : Info → IsolationPolicy → GoError
ensure_policy info policy =
    if is_none info.capabilities
    then nil
    else if is_none policy.allowed_capabilities && is_none policy.denied_capabilities
    then plain (txt "plugins declaring capabilities require an isolation policy")
    else nil

-- the loop over the denied capabilities
unfoldable pub check_denied : List Capability → List Capability → GoError
check_denied requested [] = nil
check_denied requested (cap ∷ denied) =
    let rest = check_denied requested denied in
    if contains requested cap
    then plain (txt "capability " ++ cap ++ txt " is explicitly denied")
    else rest

-- the loop over the capabilities of the plugin; the keys of `allowed` are the elements of the list
unfoldable pub check_allowed : List Capability → List Capability → GoError
check_allowed allowed [] = nil
check_allowed allowed (cap ∷ requested) =
    let rest = check_allowed allowed requested in
    if contains allowed cap then rest else plain (txt "capability " ++ cap ++ txt " not permitted")

abbrev pub unless_failed : GoError → GoError → GoError
unless_failed nil e = e
unless_failed e _ = e

-- NoopIsolationStrategy.Validate
unfoldable pub validate_noop : Info → IsolationPolicy → GoError
unfolding check_denied check_allowed
validate_noop info policy =
    unless_failed (check_denied info.capabilities policy.denied_capabilities) (
      if is_none policy.allowed_capabilities
      then nil
      else check_allowed policy.allowed_capabilities info.capabilities)

unfoldable pub noop_isolation_strategy : {W : Type 0} → IsolationStrategy W
unfolding validate_noop
noop_isolation_strategy = record {
  validate = λ info policy. pure (validate_noop info policy);
  prepare = λ info. pure nil;
  cleanup = λ info. pure nil;
}

unfoldable pub new_isolation_strategy :
    {W : Type 0} → Option (IsolationStrategy W) → IsolationStrategy W
unfolding noop_isolation_strategy
new_isolation_strategy none = noop_isolation_strategy
new_isolation_strategy (some strategy) = strategy
