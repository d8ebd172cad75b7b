-- ===== src/Expansion/Callers.antt =====
-- pkg/container/helpers.go and MappingFuncFor of pkg/expansion/expand.go.
pub mod Environment
pub mod Missing
pub mod Total
mod Examples
use hpktainer.Base.{
  Bytes, List, [], ◌∷◌, ◌++◌, Option, none, some, ◌==◌, if◌then◌else◌, lookup, insert, any, beq,
  length,
}
use hpktainer.Expansion.{expand, syntax_wrap}

-- corev1.EnvVar, its name and value.
pub record EnvVar : Type 0 where
  pub name : Bytes
  pub value : Bytes

-- The loop of envVarsToMap over the map built so far.
env_vars_to_map_from : List (Bytes × Bytes) → List EnvVar → List (Bytes × Bytes)
env_vars_to_map_from result [] = result
env_vars_to_map_from result (env ∷ envs) =
    env_vars_to_map_from (insert env.name env.value result) envs

unfoldable pub env_vars_to_map : List EnvVar → List (Bytes × Bytes)
unfolding env_vars_to_map_from
env_vars_to_map envs = env_vars_to_map_from [] envs

-- The mapping has no effects: its state is the unit.
pub mapping_func_for : List (List (Bytes × Bytes)) → Unit {0} → Bytes → Bytes × Unit {0}
mapping_func_for [] s input = (syntax_wrap input, s)
mapping_func_for (vars ∷ context) s input = elim (lookup input vars) [
  | some val ↦ (val, s)
  | none ↦ mapping_func_for context s input
]

expand_commands : (Unit {0} → Bytes → Bytes × Unit {0}) → List Bytes → Option (List Bytes)
expand_commands mapping [] = some []
expand_commands mapping (cmd ∷ cmds) = elim (expand mapping cmd tt) [
  | none ↦ none
  | some (word, _) ↦ elim (expand_commands mapping cmds) [
    | none ↦ none
    | some words ↦ some (word ∷ words)
  ]
]

-- ExpandContainerCommandOnlyStatic; `none` is a panic of Expand.
unfoldable pub expand_container_command_only_static : List Bytes → List EnvVar → Option (List Bytes)
unfolding expand_commands
expand_container_command_only_static command envs =
    expand_commands (mapping_func_for (env_vars_to_map envs ∷ [])) command

-- missingKeys.Insert.
insert_key : Bytes → List Bytes → List Bytes
insert_key key keys = if any (λ k. beq k key) keys then keys else keys ++ key ∷ []

-- What the callback does with a looked-up value: `!ok || len(value) == 0` records the key, and the
-- zero value of the map is the empty text.
found : Bytes → List Bytes → Option Bytes → Bytes × List Bytes
unfolding insert_key
found key missing none = ([], insert_key key missing)
found key missing (some value) =
    (value, if length value == 0 then insert_key key missing else missing)

-- The callback of ExpandContainerVolumeMounts; its state is the set of missing keys.
pub record_missing : List (Bytes × Bytes) → List Bytes → Bytes → Bytes × List Bytes
unfolding found
record_missing envmap missing key = found key missing (lookup key envmap)

-- The text, or the set of keys that the error names.
pub data MountExpansion : Type 0 where
  expanded : Bytes → MountExpansion
  missing_value : List Bytes → MountExpansion

check_missing : Bytes × List Bytes → MountExpansion
check_missing (text, missing) = if length missing == 0 then expanded text else missing_value missing

pub expand_container_volume_mounts : Bytes → List EnvVar → Option MountExpansion
unfolding check_missing
expand_container_volume_mounts sub_path_expr envs =
    elim (expand (record_missing (env_vars_to_map envs)) sub_path_expr []) [
      | none ↦ none
      | some result ↦ some (check_missing result)
    ]
