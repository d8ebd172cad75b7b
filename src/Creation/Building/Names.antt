-- ===== src/Creation/Building/Names.antt =====
-- The name that buildContainer of internal/compute/podhandler/container.go gives to a status.
use hpktainer.Base.{◌≡◌, ap, sym}
use hpktainer.Pod.{ContainerStatus}
use hpktainer.Expansion.Callers.{expand_container_command_only_static}
use hpktainer.Creation.Building.{
  Spec, Handler, Host, Built, ok, err, >>=-eq-ok, Template, write_env_file, bind_mounts, find_image,
  or_error, or_empty, panics, build_container,
}

status_of : ContainerStatus → Built (Template × ContainerStatus) → ContainerStatus
status_of default (ok (t, s)) = s
status_of default (err e) = default

-- A container that is built has its own name in its status.
pub build_container-name :
    (host : Host) (h : Handler) (s : Spec) (status : ContainerStatus) (t : Template)
    (st : ContainerStatus)
    → build_container host h s status ≡ ok (t, st)
    → st.name ≡ s.container.name
unfolding build_container status_of
build_container-name host h s status t st e =
    let (u, (a, e1)) = >>=-eq-ok (write_env_file host h s.container) _ e in
    let (binds, (b, e2)) = >>=-eq-ok (bind_mounts host h s.container.volume_mounts) _ e1 in
    let (path, (c, e3)) = >>=-eq-ok (find_image host h s) _ e2 in
    let (command, (d, e4)) =
      >>=-eq-ok
        (or_error
          (expand_container_command_only_static (or_empty s.container.command) s.container.env)
          panics)
        _ e3 in
    let (args, (f, e5)) =
      >>=-eq-ok
        (or_error (expand_container_command_only_static s.container.args s.container.env) panics) _
        e4 in
    sym (ap (λ (r : Built (Template × ContainerStatus)). (status_of status r).name) e5)
