-- ===== src/Agent/Drivers.antt =====
-- internal/agent/driver.go, the registry of drivers, and `driverForSpec` of manager.go.
use channel_plugin.Prelude.{
  ℕ, String, ◌≡◌, Bool, true, false, not, is_some, Option, none, some, arith, ◌==◌, eq_iff,
  if◌then◌else◌,
}
use channel_plugin.GoMap
use channel_plugin.GoMap.{GoMap, get-put}
use channel_plugin.Agent.Types.{Spec}

-- A driver is its `Init`: the handle of the runtime that it makes for a spec, or an error. A factory
-- is known by the driver that it makes.
abbrev pub Driver : Type 0
Driver = Spec → Option ℕ

-- `LookupDriver`
unfoldable pub lookup_driver : GoMap Driver → String → Option Driver
lookup_driver drivers name = GoMap.get drivers name

-- `RegisterDriver`: the registry after it, and whether there was no error.
unfoldable pub register_driver : GoMap Driver → String → Driver → GoMap Driver × Bool
register_driver drivers name driver = elim (GoMap.get drivers name) [
  | some d ↦ (drivers, false)
  | none ↦ (GoMap.put drivers name driver, true)
]

-- `driverForSpec`; a spec with no type is for codex-exec.
unfoldable pub driver_for_spec : GoMap Driver → Spec → Option Driver
unfolding lookup_driver
driver_for_spec drivers spec =
    lookup_driver drivers (if spec.type == "" then "codex-exec" else spec.type)

-- A registration succeeds exactly if the name has no driver yet. Afterwards every name that had a
-- driver still has it, whatever is registered, and the name has the new one if it had none.
pub register_driver_lem :
    (drivers : GoMap Driver) (name : String) (driver : Driver)
    → let (drivers', registered) = register_driver drivers name driver in
      (registered ≡ not (is_some (lookup_driver drivers name)))
      × ((k : String)
          → lookup_driver drivers' k ≡ (elim (lookup_driver drivers k) [
            | some d ↦ some d
            | none ↦ if name == k then some driver else none
          ]))
unfolding register_driver lookup_driver
register_driver_lem drivers name driver =
    (ground arith, λ k. ground (arith, get-put drivers name k driver, eq_iff name k))
