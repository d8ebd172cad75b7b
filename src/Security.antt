-- ===== src/Security.antt =====
-- internal/compute/podhandler/securitycontext.go: the user and group that a container runs as. The
-- records are the parts of corev1.SecurityContext and corev1.PodSecurityContext that it reads; a nil
-- pointer is `none`.
pub mod RunAs
pub mod Examples
use hpktainer.Base.{Bool, true, Option, none, some, List, Bytes, ℤ, pos}

pub record SeLinuxOptions : Type 0 where
  pub user : Bytes
  pub role : Bytes
  pub type : Bytes
  pub level : Bytes

pub record WindowsOptions : Type 0 where
  pub gmsa_credential_spec_name : Option Bytes
  pub gmsa_credential_spec : Option Bytes
  pub run_as_user_name : Option Bytes
  pub host_process : Option Bool

pub record Capabilities : Type 0 where
  pub add : List Bytes
  pub drop : List Bytes

pub record SecurityContext : Type 0 where
  pub se_linux_options : Option SeLinuxOptions
  pub windows_options : Option WindowsOptions
  pub capabilities : Option Capabilities
  pub privileged : Option Bool
  pub run_as_non_root : Option Bool
  pub run_as_user : Option ℤ
  pub run_as_group : Option ℤ
  pub read_only_root_filesystem : Option Bool
  pub allow_privilege_escalation : Option Bool
  pub proc_mount : Option Bytes

pub record PodSecurityContext : Type 0 where
  pub se_linux_options : Option SeLinuxOptions
  pub windows_options : Option WindowsOptions
  pub run_as_user : Option ℤ
  pub run_as_group : Option ℤ
  pub run_as_non_root : Option Bool

abbrev pub root_uid : ℤ
root_uid = pos 0

abbrev pub root_gid : ℤ
root_gid = pos 0

abbrev pub nobody_uid : ℤ
nobody_uid = pos 65534

abbrev pub nobody_gid : ℤ
nobody_gid = pos 65534

-- &corev1.SecurityContext{}.
abbrev pub empty_context : SecurityContext
empty_context = record {
  se_linux_options = none;
  windows_options = none;
  capabilities = none;
  privileged = none;
  run_as_non_root = none;
  run_as_user = none;
  run_as_group = none;
  read_only_root_filesystem = none;
  allow_privilege_escalation = none;
  proc_mount = none;
}

pub security_context_from_pod_security_context : PodSecurityContext → SecurityContext
security_context_from_pod_security_context sc = record empty_context {
  se_linux_options = sc.se_linux_options;
  windows_options = sc.windows_options;
  run_as_user = sc.run_as_user;
  run_as_group = sc.run_as_group;
  run_as_non_root = sc.run_as_non_root;
}

-- `if containerSc.F != nil { effectiveSc.F = containerSc.F }`.
pub override {ℓ} : {A : Type ℓ} → Option A → Option A → Option A
override (some x) effective = some x
override none effective = effective

-- The two GMSA fields go together: both are taken over if one is set.
override_gmsa : Option Bytes → Option Bytes → WindowsOptions → WindowsOptions
override_gmsa none none w = w
override_gmsa name spec w = record w {
  gmsa_credential_spec_name = name;
  gmsa_credential_spec = spec;
}

no_windows_options : WindowsOptions
no_windows_options = record {
  gmsa_credential_spec_name = none;
  gmsa_credential_spec = none;
  run_as_user_name = none;
  host_process = none;
}

override_set : WindowsOptions → WindowsOptions → WindowsOptions
unfolding override override_gmsa
override_set c w =
    let g = override_gmsa c.gmsa_credential_spec_name c.gmsa_credential_spec w in
    record g {
      run_as_user_name = override c.run_as_user_name g.run_as_user_name;
      host_process = override c.host_process g.host_process;
    }

override_windows : Option WindowsOptions → Option WindowsOptions → Option WindowsOptions
unfolding override_set no_windows_options
override_windows none effective = effective
override_windows (some c) none = some (override_set c no_windows_options)
override_windows (some c) (some w) = some (override_set c w)

override_context : SecurityContext → SecurityContext → SecurityContext
unfolding override override_windows
override_context c e = record {
  se_linux_options = override c.se_linux_options e.se_linux_options;
  windows_options = override_windows c.windows_options e.windows_options;
  capabilities = override c.capabilities e.capabilities;
  privileged = override c.privileged e.privileged;
  run_as_non_root = override c.run_as_non_root e.run_as_non_root;
  run_as_user = override c.run_as_user e.run_as_user;
  run_as_group = override c.run_as_group e.run_as_group;
  read_only_root_filesystem = override c.read_only_root_filesystem e.read_only_root_filesystem;
  allow_privilege_escalation = override c.allow_privilege_escalation e.allow_privilege_escalation;
  proc_mount = override c.proc_mount e.proc_mount;
}

-- DetermineEffectiveSecurityContext of the contexts of the pod and of the container.
pub determine_effective_security_context :
    Option PodSecurityContext → Option SecurityContext → SecurityContext
unfolding override_context
determine_effective_security_context none none = empty_context
determine_effective_security_context (some pod) none =
    security_context_from_pod_security_context pod
determine_effective_security_context none (some container) = container
determine_effective_security_context (some pod) (some container) =
    override_context container (security_context_from_pod_security_context pod)

default_ids : Option Bool → ℤ × ℤ
default_ids (some true) = (nobody_uid, nobody_gid)
default_ids _ = (root_uid, root_gid)

id_or : Option ℤ → ℤ → ℤ
id_or (some id) default = id
id_or none default = default

-- DetermineEffectiveRunAsUser: the uid and the gid.
pub determine_effective_run_as_user : SecurityContext → ℤ × ℤ
unfolding default_ids id_or
determine_effective_run_as_user sc =
    let (uid, gid) = default_ids sc.run_as_non_root in
    (id_or sc.run_as_user uid, id_or sc.run_as_group gid)
