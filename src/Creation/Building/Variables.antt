-- ===== src/Creation/Building/Variables.antt =====
-- The variables of a container in buildContainer of internal/compute/podhandler/container.go: which
-- ones its mounts may name, and which ones it runs with.
use hpktainer.Base.{
  Bool, true, false, Option, none, some, List, [], ◌∷◌, ◌++◌, Bytes, ◌≡◌, refl, ap, ◌∙◌, arith, beq,
  Lacks, lookup, if◌then◌else◌,
}
use hpktainer.Pod.{ContainerStatus}
use hpktainer.Expansion.{syntax_wrap}
use hpktainer.Expansion.Callers.{EnvVar, env_vars_to_map}
use hpktainer.Expansion.Callers.Environment.{last_value, lookup-env_vars_to_map}
use hpktainer.Expansion.Callers.Total.{expand_container_volume_mounts-unset}
use hpktainer.Pause.Arguments.{VolumeMount, Container}
use hpktainer.Pause.EnvFile.{parse_env_vars, print_env_vars, Printable, parse-print}
use hpktainer.Creation.Building.{
  Spec, Handler, Host, Built, ok, err, ◌>>=◌, of_expansion, sub_path, bind_mount, bind_mounts,
  variables, printed_value, printed_variables, write_env_file, build_container,
}

abbrev pub fails {ℓ} : {A : Type ℓ} → Built A → Bool
fails (ok a) = false
fails (err e) = true

fails-bind :
    {A B : Type 0} (m : Built A) (f : A → Built B) → fails m ≡ true → fails (m >>= f) ≡ true
fails-bind (ok a) f h = absurd (ground arith)
fails-bind (err e) f h = refl

fails-then :
    {A B : Type 0} (m : Built A) (f : A → Built B)
    → ((a : A) → fails (f a) ≡ true)
    → fails (m >>= f) ≡ true
fails-then (ok a) f h = h a
fails-then (err e) f h = refl

wrapped : (name : Bytes) → beq (syntax_wrap name) [] ≡ false
unfolding syntax_wrap beq
wrapped name = refl

module _ (host : Host) (h : Handler) (name : Bytes) (l : Lacks b')' name)
    (unset : lookup name (env_vars_to_map h.pod_env_variables) ≡ none) where
  sub_path-fails :
      (m : VolumeMount) → m.sub_path_expr ≡ syntax_wrap name → fails (sub_path h m) ≡ true
  unfolding sub_path of_expansion beq syntax_wrap
  sub_path-fails m e =
      rw (e, expand_container_volume_mounts-unset name h.pod_env_variables l unset) refl

  bind_mounts-fails :
      (before after : List VolumeMount) (m : VolumeMount)
      → m.sub_path_expr ≡ syntax_wrap name
      → fails (bind_mounts host h (before ++ m ∷ after)) ≡ true
  unfolding bind_mounts bind_mount
  bind_mounts-fails [] after m e =
      fails-bind (bind_mount host h m) _ (fails-bind (sub_path h m) _ (sub_path-fails m e))
  bind_mounts-fails (b ∷ before) after m e = fails-then (bind_mount host h b) _ (λ bind.
      fails-bind (bind_mounts host h (before ++ m ∷ after)) _ (bind_mounts-fails before after m e))

  -- A container with a mount whose subPathExpr is a reference to a variable that no service sets cannot
  -- be built, whatever the other mounts are and whatever the environment of the container sets: the
  -- expression is expanded with the variables of the services only.
  pub build_container-unset :
      (s : Spec) (status : ContainerStatus) (before after : List VolumeMount) (m : VolumeMount)
      → s.container.volume_mounts ≡ before ++ m ∷ after
      → m.sub_path_expr ≡ syntax_wrap name
      → fails (build_container host h s status) ≡ true
  unfolding build_container
  build_container-unset s status before after m e f =
      fails-then (write_env_file host h s.container) _ (λ u.
        fails-bind (bind_mounts host h s.container.volume_mounts) _
          (rw e (bind_mounts-fails before after m f)))

last_value-append :
    (k : Bytes) (es fs : List EnvVar) (default : Option Bytes)
    → last_value k (es ++ fs) default ≡ last_value k fs (last_value k es default)
last_value-append k [] fs default = refl
last_value-append k (e ∷ es) fs default =
    last_value-append k es fs (if beq e.name k then some e.value else default)

printed_variables-append :
    (ip : Bytes) (es fs : List EnvVar)
    → printed_variables ip (es ++ fs) ≡ printed_variables ip es ++ printed_variables ip fs
unfolding printed_variables
printed_variables-append ip [] fs = refl
printed_variables-append ip (e ∷ es) fs =
    ap (λ (l : List EnvVar). record { name = e.name; value = printed_value ip e.value } ∷ l)
      (printed_variables-append ip es fs)

-- The environment script prints the variables of the container and then those of the services, with the
-- output of `ip route` in the place of a value .status.podIP, and hpk-pause reads them back, if the
-- names contain no `=` and no printed text a zero byte: a variable then has the value that is printed
-- for a service, and only if no service sets it that for the container.
pub lookup-variables :
    (h : Handler) (c : Container) (ip k : Bytes)
    → Printable (printed_variables ip (variables h c))
    → lookup k
        (env_vars_to_map (parse_env_vars (print_env_vars (printed_variables ip (variables h c)))))
      ≡ last_value k
          (printed_variables ip h.pod_env_variables)
          (last_value k (printed_variables ip c.env) none)
unfolding variables
lookup-variables h c ip k p =
    ap (λ (es : List EnvVar). lookup k (env_vars_to_map es))
      (parse-print (printed_variables ip (c.env ++ h.pod_env_variables)) p)
    ∙ lookup-env_vars_to_map k (printed_variables ip (c.env ++ h.pod_env_variables))
    ∙ ap (λ (es : List EnvVar). last_value k es none)
        (printed_variables-append ip c.env h.pod_env_variables)
    ∙ last_value-append k (printed_variables ip c.env) (printed_variables ip h.pod_env_variables)
        none
