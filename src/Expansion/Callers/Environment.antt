-- ===== src/Expansion/Callers/Environment.antt =====
-- What envVarsToMap of pkg/container/helpers.go and MappingFuncFor make of a list of variables.
use hpktainer.Base.{
  ◌≡◌, ◌∙◌, refl, ap, Bytes, List, [], ◌∷◌, Option, none, some, lookup, insert, lookup-insert, beq,
  if◌then◌else◌,
}
use hpktainer.Expansion.Callers.{EnvVar, env_vars_to_map_from, env_vars_to_map}

-- The value of the last variable of a name, or the default.
abbrev pub last_value : Bytes → List EnvVar → Option Bytes → Option Bytes
last_value k [] default = default
last_value k (env ∷ envs) default =
    last_value k envs (if beq env.name k then some env.value else default)

lookup-from :
    (k : Bytes) (envs : List EnvVar) (result : List (Bytes × Bytes))
    → lookup k (env_vars_to_map_from result envs) ≡ last_value k envs (lookup k result)
unfolding env_vars_to_map_from
lookup-from k [] result = refl
lookup-from k (env ∷ envs) result =
    lookup-from k envs (insert env.name env.value result)
    ∙ ap (last_value k envs) (lookup-insert env.name k env.value result)

-- A variable that is set twice has its last value, and a name that is not set has none.
pub lookup-env_vars_to_map :
    (k : Bytes) (envs : List EnvVar) → lookup k (env_vars_to_map envs) ≡ last_value k envs none
unfolding env_vars_to_map lookup
lookup-env_vars_to_map k envs = lookup-from k envs []
