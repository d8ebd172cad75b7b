-- ===== src/Pause/Arguments/Total.antt =====
-- executeContainer of cmd/hpk-pause/main.go meets no panic of Expand.
use hpktainer.Base.{
  some, List, [], ◌∷◌, Bytes, ◌≢◌, ap, arith, beq, Bool-cases, inl, inr, join_path,
}
use hpktainer.Expansion.Callers.{
  EnvVar, MountExpansion, expanded, missing_value, expand_container_command_only_static,
}
use hpktainer.Expansion.Callers.Total.{
  expand_container_command_only_static_total, expand_container_volume_mounts_total,
}
use hpktainer.Pause.Arguments.{
  Container, PausePod, Host, VolumeMount, ExecError, panics, absolute_sub_path, Result, ok, err,
  of_expansion, sub_path, below, bind_mount, bind_mounts, words, apptainer_args, ◌>>=◌, or_empty,
}

error_of : {A : Type 0} → Result A → ExecError
error_of (ok a) = absolute_sub_path
error_of (err e) = e

>>=-ne-panics :
    {A B : Type 0} (m : Result A) (f : A → Result B)
    → m ≢ err panics
    → ((a : A) → f a ≢ err panics)
    → (m >>= f) ≢ err panics
unfolding error_of
>>=-ne-panics (ok a) f h k q = k a q
>>=-ne-panics (err e) f h k q = h (ap (λ x. err x) (ap error_of q))

of_expansion-ne-panics : (r : MountExpansion) → of_expansion (some r) ≢ err panics
unfolding of_expansion
of_expansion-ne-panics (expanded path) e = cc
of_expansion-ne-panics (missing_value names) e = cc

sub_path-ne-panics : (m : VolumeMount) (envs : List EnvVar) → sub_path m envs ≢ err panics
unfolding sub_path
sub_path-ne-panics m envs = elim (Bool-cases (beq m.sub_path_expr [])) [
  | inl e ↦ rw e (λ q. cc)
  | inr e ↦
      let (r, total) = expand_container_volume_mounts_total m.sub_path_expr envs in
      rw (e, total) (of_expansion-ne-panics r)
]

below-ne-panics : (host_path path : Bytes) → below host_path path ≢ err panics
unfolding below
below-ne-panics host_path path e = ground arith

bind_mount-ne-panics :
    (volumes : Bytes) (envs : List EnvVar) (m : VolumeMount)
    → bind_mount volumes envs m ≢ err panics
unfolding bind_mount
bind_mount-ne-panics volumes envs m =
    >>=-ne-panics (sub_path m envs) _ (sub_path-ne-panics m envs) (λ path.
      >>=-ne-panics (below (join_path (volumes ∷ m.name ∷ [])) path) _ (below-ne-panics _ path)
        (λ h q. cc))

pub bind_mounts-ne-panics :
    (volumes : Bytes) (envs : List EnvVar) (ms : List VolumeMount)
    → bind_mounts volumes envs ms ≢ err panics
unfolding bind_mounts
bind_mounts-ne-panics volumes envs [] = λ q. cc
bind_mounts-ne-panics volumes envs (m ∷ ms) =
    >>=-ne-panics (bind_mount volumes envs m) _ (bind_mount-ne-panics volumes envs m) (λ bind.
      >>=-ne-panics (bind_mounts volumes envs ms) _ (bind_mounts-ne-panics volumes envs ms)
        (λ binds q. cc))

words-ne-panics :
    (command : List Bytes) (envs : List EnvVar)
    → words (expand_container_command_only_static command envs) ≢ err panics
unfolding words
words-ne-panics command envs =
    let (ws, total) = expand_container_command_only_static_total command envs in rw total (λ q. cc)

pub apptainer_args-ne-panics :
    (h : Host) (pod : PausePod) (c : Container) (binds : List Bytes)
    → apptainer_args h pod c binds ≢ err panics
unfolding apptainer_args
apptainer_args-ne-panics h pod c binds =
    >>=-ne-panics (words (expand_container_command_only_static (or_empty c.command) c.env)) _
      (words-ne-panics (or_empty c.command) c.env)
      (λ command.
        >>=-ne-panics (words (expand_container_command_only_static c.args c.env)) _
          (words-ne-panics c.args c.env) (λ args q. cc))
