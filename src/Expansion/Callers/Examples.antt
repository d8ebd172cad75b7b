-- ===== src/Expansion/Callers/Examples.antt =====
-- Tests and instances for pkg/container/helpers.go.
use hpktainer.Base.{◌≡◌, refl, some, List, [], ◌∷◌, codes, lookup, insert, beq}
use hpktainer.Expansion.{expand, syntax_wrap}
use hpktainer.Expansion.Callers.{
  EnvVar, env_vars_to_map, mapping_func_for, expand_container_command_only_static, record_missing,
  expanded, missing_value, expand_container_volume_mounts,
}

abbrev envs : List EnvVar
envs =
    record { name = codes "A"; value = codes "1" }
    ∷ record { name = codes "B"; value = [] }
    ∷ record { name = codes "A"; value = codes "2" }
    ∷ []

commands :
    expand_container_command_only_static (codes "$(A)" ∷ codes "$(C)$(B)" ∷ []) envs
    ≡ some (codes "2" ∷ codes "$(C)" ∷ [])
unfolding expand_container_command_only_static syntax_wrap mapping_func_for expand env_vars_to_map
    lookup insert beq
commands = refl

mounts : expand_container_volume_mounts (codes "x$(A)") envs ≡ some (expanded (codes "x2"))
unfolding expand_container_volume_mounts record_missing expand env_vars_to_map lookup insert beq
mounts = refl

mounts_missing :
    expand_container_volume_mounts (codes "$(C)$(B)$(C)") envs
    ≡ some (missing_value (codes "C" ∷ codes "B" ∷ []))
unfolding expand_container_volume_mounts record_missing expand env_vars_to_map lookup insert beq
mounts_missing = refl
