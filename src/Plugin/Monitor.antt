-- ===== src/Plugin/Monitor.antt =====
-- The life cycle of a plugin as an automaton over what its hooks did.
use open_mcp_chain.Prelude.{
  Bool, Option, none, some, List, [], ◌∷◌, Text, text_eq, ◌==◌, if◌then◌else◌,
}
use open_mcp_chain.Plugin.{State, registered, initialised, started, stopped}

pub data Hook : Type 0 where
  init start stop : Hook

-- A call of a hook of the plugin with this id, and whether it returned without an error.
pub record HookCall : Type 0 where
  pub id : Text
  pub hook : Hook
  pub fine : Bool

-- The automaton: init comes first and, once it went well, never again; start comes after that, and not while
-- the plugin runs; stop comes only while it runs. A hook that fails changes nothing. `none` is a hook out of
-- turn.
unfoldable pub advance : State → Hook → Bool → Option State
advance registered init fine = some (if fine then initialised else registered)
advance initialised start fine = some (if fine then started else initialised)
advance stopped start fine = some (if fine then started else stopped)
advance started stop fine = some (if fine then stopped else started)
advance _ _ fine = none

unfoldable pub advance_from : Option State → HookCall → Option State
unfolding advance
advance_from none c = none
advance_from (some s) c = advance s c.hook c.fine

-- Where the calls for `id` lead, from the state `s`.
unfoldable pub monitor : Text → Option State → List HookCall → Option State
monitor id s [] = s
monitor id s (c ∷ calls) = monitor id (if c.id == id then advance_from s c else s) calls
