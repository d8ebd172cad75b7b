-- ===== src/Expansion/Callers/Total.antt =====
-- The callers of Expand in pkg/container/helpers.go never meet a panic of it.
use hpktainer.Base.{
  Bytes, List, [], ◌∷◌, none, some, ◌≡◌, refl, ◌∙◌, arith, Lacks, lookup, append-nil, ◌++◌,
}
use hpktainer.Expansion.{expand, syntax_wrap}
use hpktainer.Expansion.RoundTrip.{expand-syntax_wrap}
use hpktainer.Expansion.Equivalence.{expand_sound}
use hpktainer.Expansion.Callers.{
  EnvVar, env_vars_to_map, mapping_func_for, expand_commands, expand_container_command_only_static,
  record_missing, found, insert_key, missing_value, MountExpansion, check_missing,
  expand_container_volume_mounts,
}

expand_commands-cons :
    (mapping : Unit {0} → Bytes → Bytes × Unit {0}) (cmd : Bytes) (cmds : List Bytes) (o : Bytes)
    (s : Unit {0}) (words : List Bytes)
    → expand mapping cmd tt ≡ some (o, s)
    → expand_commands mapping cmds ≡ some words
    → expand_commands mapping (cmd ∷ cmds) ≡ some (o ∷ words)
unfolding expand_commands
expand_commands-cons mapping cmd cmds o s words e f = ground arith

expand_commands_total :
    (mapping : Unit {0} → Bytes → Bytes × Unit {0}) (command : List Bytes)
    → (words : List Bytes) × (expand_commands mapping command ≡ some words)
unfolding expand_commands
expand_commands_total mapping [] = ([], refl)
expand_commands_total mapping (cmd ∷ cmds) =
    let (o, s, e, d) = expand_sound mapping cmd tt in
    let (words, f) = expand_commands_total mapping cmds in
    (o ∷ words, expand_commands-cons mapping cmd cmds o s words e f)

-- ExpandContainerCommandOnlyStatic gives words for every command and environment.
pub expand_container_command_only_static_total :
    (command : List Bytes) (envs : List EnvVar)
    → (words : List Bytes) × (expand_container_command_only_static command envs ≡ some words)
unfolding expand_container_command_only_static
expand_container_command_only_static_total command envs =
    expand_commands_total (mapping_func_for (env_vars_to_map envs ∷ [])) command

mount_checked :
    (expr : Bytes) (envs : List EnvVar) (result : Bytes × List Bytes)
    → expand (record_missing (env_vars_to_map envs)) expr [] ≡ some result
    → expand_container_volume_mounts expr envs ≡ some (check_missing result)
unfolding expand_container_volume_mounts
mount_checked expr envs result e = ground arith

-- ExpandContainerVolumeMounts gives a text or the missing names for every expression.
pub expand_container_volume_mounts_total :
    (expr : Bytes) (envs : List EnvVar)
    → (r : MountExpansion) × (expand_container_volume_mounts expr envs ≡ some r)
unfolding expand_container_volume_mounts
expand_container_volume_mounts_total expr envs =
    let (o, s, e, d) = expand_sound (record_missing (env_vars_to_map envs)) expr [] in
    (check_missing (o, s), mount_checked expr envs (o, s) e)

-- A single reference to a variable that is not set is refused, and the error names the variable.
pub expand_container_volume_mounts-unset :
    (name : Bytes) (envs : List EnvVar)
    → Lacks b')' name
    → lookup name (env_vars_to_map envs) ≡ none
    → expand_container_volume_mounts (syntax_wrap name) envs ≡ some (missing_value (name ∷ []))
unfolding record_missing found insert_key check_missing
expand_container_volume_mounts-unset name envs l e =
    let mapping = record_missing (env_vars_to_map envs) in
    let expansion : expand mapping (syntax_wrap name) []
        ≡ some ((mapping [] name).0 ++ [], (mapping [] name).1) =
      rw (← append-nil (syntax_wrap name)) (expand-syntax_wrap mapping name [] [] l tt) in
    mount_checked (syntax_wrap name) envs _ expansion ∙ rw e refl
