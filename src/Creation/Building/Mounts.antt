-- ===== src/Creation/Building/Mounts.antt =====
-- The mounts that buildContainer of internal/compute/podhandler/container.go prepares, against those
-- that executeContainer of cmd/hpk-pause/main.go makes.
use hpktainer.Base.{
  Option, none, some, List, [], ◌∷◌, Bytes, ◌≡◌, arith, beq, is_abs, join_path, Bool-cases, inl,
  inr,
}
use hpktainer.Endpoint.{volume_dir}
use hpktainer.Expansion.Callers.{
  MountExpansion, expanded, missing_value, expand_container_volume_mounts,
}
use hpktainer.Pause.Arguments as Pause
use hpktainer.Pause.Arguments.{VolumeMount, Result}
use hpktainer.Creation.Building.{
  Handler, Host, ok, ◌>>=◌, >>=-eq-ok, of_expansion, sub_path, make_placeholder, below, bind_text,
  bind_mount, bind_mounts,
}

of_expansion-pause :
    (r : Option MountExpansion) (path : Bytes)
    → of_expansion r ≡ ok path
    → Pause.of_expansion r ≡ Pause.ok path
unfolding of_expansion Pause.of_expansion
of_expansion-pause none path h = absurd (ground arith)
of_expansion-pause (some (expanded text)) path h = ground arith
of_expansion-pause (some (missing_value names)) path h = absurd (ground arith)

sub_path-pause :
    (h : Handler) (m : VolumeMount) (path : Bytes)
    → sub_path h m ≡ ok path
    → Pause.sub_path m h.pod_env_variables ≡ Pause.ok path
unfolding sub_path Pause.sub_path
sub_path-pause h m path e = ground (
  arith,
  e,
  of_expansion-pause (expand_container_volume_mounts m.sub_path_expr h.pod_env_variables) path,
)

pause_bind :
    {A B : Type 0} {m : Result A} (f : A → Result B) {a : A} {r : Result B}
    → m ≡ Pause.ok a
    → f a ≡ r
    → Pause.◌>>=◌ m f ≡ r
pause_bind f h k = rw h k

ok-pause : {A : Type 0} {a b : A} → ok a ≡ ok b → Pause.ok a ≡ Pause.ok b
ok-pause h = cc

below-pause :
    (host : Host) (m : VolumeMount) (host_path path bound : Bytes)
    → below host m host_path path ≡ ok bound
    → Pause.below host_path path ≡ Pause.ok bound
unfolding below Pause.below
below-pause host m host_path path bound e = elim (Bool-cases (beq path [])) [
  | inl z ↦ ground (arith, e, z)
  | inr z ↦ elim (Bool-cases (is_abs path)) [
    | inl a ↦ absurd (ground (arith, e, z, a))
    | inr a ↦
        let file = join_path (host_path ∷ path ∷ []) in
        let opened : (make_placeholder host m host_path path file (host.path_exists file) >>= λ u.
        ok file)
            ≡ ok bound =
          ground (arith, e, z, a) in
        let (u, (p, last)) =
          >>=-eq-ok (make_placeholder host m host_path path file (host.path_exists file))
            (λ u. ok file) opened in
        ground (arith, z, a, last)
  ]
]

bind_mount-pause :
    (host : Host) (h : Handler) (m : VolumeMount) (bound : Bytes)
    → bind_mount host h m ≡ ok bound
    → Pause.bind_mount (volume_dir h.pod_directory) h.pod_env_variables m ≡ Pause.ok bound
unfolding bind_mount Pause.bind_mount bind_text Pause.bind_text
bind_mount-pause host h m bound e =
    let (path, (p, rest)) = >>=-eq-ok (sub_path h m) _ e in
    let (host_path, (b, last)) =
      >>=-eq-ok (below host m (join_path (volume_dir h.pod_directory ∷ m.name ∷ [])) path) _ rest in
    pause_bind {m = Pause.sub_path m h.pod_env_variables} _ (sub_path-pause h m path p) (
      pause_bind {m = Pause.below (join_path (volume_dir h.pod_directory ∷ m.name ∷ [])) path} _
        (below-pause host m (join_path (volume_dir h.pod_directory ∷ m.name ∷ [])) path host_path b)
        (ok-pause last))

-- If buildContainer prepares the mounts of a container, then hpk-pause makes the same ones, in the
-- same order, provided that it reads only the variables of the services.
pub bind_mounts-pause :
    (host : Host) (h : Handler) (ms : List VolumeMount) (binds : List Bytes)
    → bind_mounts host h ms ≡ ok binds
    → Pause.bind_mounts (volume_dir h.pod_directory) h.pod_env_variables ms ≡ Pause.ok binds
unfolding bind_mounts Pause.bind_mounts
bind_mounts-pause host h [] binds e = ground arith
bind_mounts-pause host h (m ∷ ms) binds e =
    let (bound, (b, rest)) = >>=-eq-ok (bind_mount host h m) _ e in
    let (others, (o, last)) = >>=-eq-ok (bind_mounts host h ms) _ rest in
    pause_bind {m = Pause.bind_mount (volume_dir h.pod_directory) h.pod_env_variables m} _
      (bind_mount-pause host h m bound b)
      (pause_bind {m = Pause.bind_mounts (volume_dir h.pod_directory) h.pod_env_variables ms} _
        (bind_mounts-pause host h ms others o) (ok-pause last))
