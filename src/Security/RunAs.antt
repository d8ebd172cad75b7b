-- ===== src/Security/RunAs.antt =====
-- The user of a container under internal/compute/podhandler/securitycontext.go, described field by field.
use hpktainer.Base.{◌≡◌, refl, Bool, true, false, Option, none, some, ℤ, arith}
use hpktainer.Security.{
  SecurityContext, PodSecurityContext, root_uid, root_gid, nobody_uid, nobody_gid, override,
  override_context, default_ids, id_or, security_context_from_pod_security_context,
  determine_effective_security_context, determine_effective_run_as_user,
}

-- A field of a context that may be absent.
abbrev pub field_of {ℓ κ} : {C : Type ℓ} {A : Type κ} → (C → Option A) → Option C → Option A
field_of f none = none
field_of f (some c) = f c

-- The container's value, or else the pod's, or else the value for a context that demands a user other
-- than root, or root's.
abbrev pub chosen : Option ℤ → Option ℤ → Option Bool → Option Bool → ℤ → ℤ → ℤ
chosen (some id) _ _ _ nobody root = id
chosen none (some id) _ _ nobody root = id
chosen none none (some true) _ nobody root = nobody
chosen none none (some false) _ nobody root = root
chosen none none none (some true) nobody root = nobody
chosen none none none (some false) nobody root = root
chosen none none none none nobody root = root

run_as_override :
    (container : SecurityContext) (pod : PodSecurityContext)
    → determine_effective_run_as_user
        (override_context container (security_context_from_pod_security_context pod))
      ≡ (
        chosen container.run_as_user pod.run_as_user container.run_as_non_root pod.run_as_non_root
            nobody_uid root_uid,
        chosen container.run_as_group pod.run_as_group container.run_as_non_root pod.run_as_non_root
            nobody_gid root_gid,
      )
unfolding determine_effective_run_as_user override_context
    security_context_from_pod_security_context override default_ids id_or
run_as_override container pod = ground arith

-- The user and the group each follow the container's setting, or else the pod's, or else they are those
-- of nobody if runAsNonRoot holds (in the container, or else in the pod), and of root if not; contexts
-- that are absent set nothing.
pub run_as_user-chosen :
    (pod : Option PodSecurityContext) (container : Option SecurityContext)
    → let non_root = field_of (λ (c : SecurityContext). c.run_as_non_root) container in
      let pod_non_root = field_of (λ (p : PodSecurityContext). p.run_as_non_root) pod in
      determine_effective_run_as_user (determine_effective_security_context pod container) ≡ (
        chosen
            (field_of (λ (c : SecurityContext). c.run_as_user) container)
            (field_of (λ (p : PodSecurityContext). p.run_as_user) pod)
            non_root
            pod_non_root
            nobody_uid
            root_uid,
        chosen
            (field_of (λ (c : SecurityContext). c.run_as_group) container)
            (field_of (λ (p : PodSecurityContext). p.run_as_group) pod)
            non_root
            pod_non_root
            nobody_gid
            root_gid,
      )
unfolding determine_effective_run_as_user determine_effective_security_context
    security_context_from_pod_security_context default_ids id_or
run_as_user-chosen none none = refl
run_as_user-chosen (some pod) none = ground arith
run_as_user-chosen none (some container) = ground arith
run_as_user-chosen (some pod) (some container) = run_as_override container pod
