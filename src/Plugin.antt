-- ===== src/Plugin.antt =====
-- pkg/plugin: plugins, their isolation, and the manager that registers, starts and stops them. A value of
-- type `any` is represented by a text.
pub mod Isolation
pub mod Manager
pub mod Monitor
pub mod Traced
use open_mcp_chain.Prelude.{Bool, Option, none, some, List, [], ◌∷◌, Text, txt, text_eq}
use open_mcp_chain.Prelude.Map.{Map, copy_into}
use open_mcp_chain.Errors.Value.{GoError}
use open_mcp_chain.Task.Interfaces.{Action}

abbrev pub Capability : Type 0
Capability = Text

pub data State : Type 0 where
  registered initialised started stopped : State

pub record Info : Type 0 where
  pub id : Text
  pub name : Text
  pub description : Text
  pub author : Text
  pub version : Text
  pub category : Text
  pub capabilities : List Capability

-- A nil and an empty list are both `[]`: the code tells them apart nowhere.
pub record IsolationPolicy : Type 0 where
  pub allowed_capabilities : List Capability
  pub denied_capabilities : List Capability

-- map[string]any
abbrev pub Config : Type 0
Config = Map Text Text

-- Without the context.
pub record ExecutionContext : Type 0 where
  pub config : Option Config
  pub resources : Option Config

unfoldable pub clone_map : Option Config → Option Config
clone_map none = none
clone_map (some m) = some (copy_into [] m)

-- ExecutionContext.Clone
unfoldable pub clone : ExecutionContext → ExecutionContext
unfolding clone_map
clone c = record { config = clone_map c.config; resources = clone_map c.resources }

-- Configure may change the map it is given, which is then the one that the manager keeps. The other hooks
-- get copies.
pub record Plugin (W : Type 0) : Type 0 where
  pub info : Info
  pub configure : Config → Action W (GoError × Config)
  pub init : ExecutionContext → Action W GoError
  pub start : ExecutionContext → Action W GoError
  pub stop : ExecutionContext → Action W GoError

pub record IsolationStrategy (W : Type 0) : Type 0 where
  pub validate : Info → IsolationPolicy → Action W GoError
  pub prepare : Info → Action W GoError
  pub cleanup : Info → Action W GoError

-- What a loader makes of a path: a plugin, or an error.
pub data Loaded (W : Type 0) : Type 0 where
  loaded : Option (Plugin W) → Loaded W
  refused : GoError → Loaded W

pub record Loader (W : Type 0) : Type 0 where
  pub load : Text → Action W (Loaded W)
