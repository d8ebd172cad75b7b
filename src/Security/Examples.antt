-- ===== src/Security/Examples.antt =====
-- Tests and instances for internal/compute/podhandler/securitycontext.go.
use hpktainer.Base.{◌≡◌, refl, true, false, Option, none, some, pos, codes}
use hpktainer.Security.{
  SecurityContext, PodSecurityContext, WindowsOptions, empty_context,
  determine_effective_security_context, determine_effective_run_as_user, nobody_gid,
  override_context, override_windows, override_set, override_gmsa, override,
  security_context_from_pod_security_context,
}
use hpktainer.Security.RunAs.{run_as_user-chosen}

abbrev windows : Option WindowsOptions
windows = some (record {
  gmsa_credential_spec_name = some (codes "a");
  gmsa_credential_spec = some (codes "b");
  run_as_user_name = none;
  host_process = some true;
})

abbrev pod : PodSecurityContext
pod = record {
  se_linux_options = none;
  windows_options = windows;
  run_as_user = some (pos 1000);
  run_as_group = none;
  run_as_non_root = some true;
}

abbrev container : SecurityContext
container = record empty_context {
  windows_options = some (record {
    gmsa_credential_spec_name = none;
    gmsa_credential_spec = some (codes "c");
    run_as_user_name = some (codes "u");
    host_process = none;
  });
  privileged = some false;
}

-- The name of the pod's GMSA credentials is dropped with their specification.
gmsa :
    (determine_effective_security_context (some pod) (some container)).windows_options
    ≡ some (record {
      gmsa_credential_spec_name = none;
      gmsa_credential_spec = some (codes "c");
      run_as_user_name = some (codes "u");
      host_process = some true;
    })
unfolding determine_effective_security_context override_context override_windows override_set
    override_gmsa override security_context_from_pod_security_context
gmsa = refl

run_as_user-chosen_example :
    determine_effective_run_as_user
      (determine_effective_security_context (some pod) (some container))
    ≡ (pos 1000, nobody_gid)
run_as_user-chosen_example = run_as_user-chosen (some pod) (some container)
