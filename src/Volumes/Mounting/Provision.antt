-- ===== src/Volumes/Mounting/Provision.antt =====
-- What mountVolumeSource of internal/compute/podhandler/volumes.go leaves at the path of a volume.
use hpktainer.Base.{
  ℕ, pos, Bool, true, false, Option, none, some, List, [], ◌∷◌, ◌++◌, Bytes, ◌≡◌, ◌≢◌, refl, arith,
  join_path,
}
use hpktainer.Pod.{Pod}
use hpktainer.Endpoint.{volume_dir}
use hpktainer.Volumes.{
  VolumeError, not_made, not_linked, Result, ok, err, Effect, make_dir, symlink, Done, ◌then◌,
  Answer, performed, present, refused, attempt, attempt_new,
}
use hpktainer.Volumes.Claims.{
  Claim, PersistentVolume, check_claim, is_claim_retried, is_not_found, link_volume,
  persistent_volume_claim_source, with_claim, with_volume,
}
use hpktainer.Volumes.Payload.{mode_or, set_up_config_map, set_up_secret}
use hpktainer.Volumes.Downward.{downward_api_volume_source, after_dir, after_collect, collect_data}
use hpktainer.Volumes.HostPath.{
  Lstat, lstat_found, lstat_absent, lstat_failed, PathType, unset, mount_host_path,
  set_up_host_path, link_unset, link_if_lacking,
}
use hpktainer.Volumes.Mounting.{
  Volume, Node, Selected, selected_empty_dir, selected_config_map, selected_secret,
  selected_downward_api, selected_host_path, selected_claim, selected_projected, selected_none,
  select, in_new_dir, mount_selected, mount_volume_source,
}

-- There is something at the path of the volume: a directory was made there, a link there was made, a
-- call answered that something is there, or Lstat has found something there.
pub data Provided (n : Node) (target : Bytes) : List Effect → Type 0 where
  by_dir : {others : List Effect} → Provided n target (make_dir target ∷ others)
  by_link : {path : Bytes} {others : List Effect} → Provided n target (symlink path target ∷ others)
  by_later :
      {e : Effect} {others : List Effect}
      → Provided n target others
      → Provided n target (e ∷ others)
  by_existing :
      {others : List Effect} (path : Bytes)
      → n.cluster.linked path target ≡ present
      → Provided n target others
  by_presence :
      {others : List Effect} → n.files.lstat target ≡ lstat_found → Provided n target others

then-dir :
    (n : Node) (target : Bytes) (a : Answer) (e : VolumeError) (rest : Done)
    → (attempt a (make_dir target) e then rest).1 ≡ none
    → Provided n target (attempt a (make_dir target) e then rest).0
then-dir n target performed e rest h = by_dir
then-dir n target present e rest h = absurd (ground arith)
then-dir n target refused e rest h = absurd (ground arith)

link-Provided :
    (n : Node) (target path : Bytes) (a : Answer) (e : VolumeError)
    → (attempt a (symlink path target) e).1 ≡ none
    → Provided n target (attempt a (symlink path target) e).0
link-Provided n target path performed e h = by_link
link-Provided n target path present e h = absurd (ground arith)
link-Provided n target path refused e h = absurd (ground arith)

link_new-Provided :
    (n : Node) (target path : Bytes) (a : Answer) (e : VolumeError)
    → n.cluster.linked path target ≡ a
    → (attempt_new a (symlink path target) e).1 ≡ none
    → Provided n target (attempt_new a (symlink path target) e).0
link_new-Provided n target path performed e q h = by_link
link_new-Provided n target path present e q h = by_existing path q
link_new-Provided n target path refused e q h = absurd (ground arith)

append-Provided :
    (n : Node) (target : Bytes) (before after : List Effect)
    → Provided n target after
    → Provided n target (before ++ after)
append-Provided n target [] after p = p
append-Provided n target (e ∷ before) after p = by_later (append-Provided n target before after p)

then-Provided :
    (n : Node) (target : Bytes) (a b : Done)
    → (b.1 ≡ none → Provided n target b.0)
    → (a then b).1 ≡ none
    → Provided n target (a then b).0
then-Provided n target (effects, none) b p h = append-Provided n target effects b.0 (p h)
then-Provided n target (effects, some e) b p h = absurd (ground arith)

link_volume-Provided :
    (n : Node) (target : Bytes) (host_path local : Option Bytes)
    → (link_volume n.cluster target host_path local).1 ≡ none
    → Provided n target (link_volume n.cluster target host_path local).0
unfolding link_volume
link_volume-Provided n target (some path) local h =
    then-Provided n target (attempt_new (n.cluster.made path) (make_dir path) not_made)
      (attempt_new (n.cluster.linked path target) (symlink path target) not_linked)
      (link_new-Provided n target path (n.cluster.linked path target) not_linked refl) h
link_volume-Provided n target none (some path) h =
    link-Provided n target path (n.cluster.linked path target) not_linked h
link_volume-Provided n target none none h = absurd (ground arith)

with_volume-Provided :
    (n : Node) (now : ℕ) (pod : Pod) (target : Bytes) (r : Result PersistentVolume)
    → (with_volume n.cluster now pod target r).0.1 ≡ none
    → Provided n target (with_volume n.cluster now pod target r).0.0
unfolding with_volume
with_volume-Provided n now pod target (err e) h = absurd (ground arith)
with_volume-Provided n now pod target (ok v) h = link_volume-Provided n target v.host_path v.local h

with_claim-Provided :
    (n : Node) (now : ℕ) (pod : Pod) (target : Bytes) (r : Result Claim)
    → (with_claim n.cluster n.retry_volume now pod target r).0.1 ≡ none
    → Provided n target (with_claim n.cluster n.retry_volume now pod target r).0.0
unfolding with_claim
with_claim-Provided n now pod target (err e) h = absurd (ground arith)
with_claim-Provided n now pod target (ok claim) h =
    with_volume-Provided n now pod target
      (n.retry_volume is_not_found (n.cluster.get_volume claim.volume_name)) h

claim-Provided :
    (n : Node) (now : ℕ) (pod : Pod) (target : Bytes)
    → (persistent_volume_claim_source n.cluster n.retry_claim n.retry_volume now pod target).0.1
      ≡ none
    → Provided n target
        (persistent_volume_claim_source n.cluster n.retry_claim n.retry_volume now pod target).0.0
unfolding persistent_volume_claim_source
claim-Provided n now pod target h =
    with_claim-Provided n now pod target
      (n.retry_claim is_claim_retried (λ i. check_claim (n.cluster.get_claim i))) h

if_lacking-Provided :
    (n : Node) (target path : Bytes) (l : Lstat)
    → n.files.lstat target ≡ l
    → l ≢ lstat_failed
    → (link_if_lacking n.files path target l).1 ≡ none
    → Provided n target (link_if_lacking n.files path target l).0
unfolding link_if_lacking
if_lacking-Provided n target path lstat_absent e k h =
    link-Provided n target path (n.files.links path target) not_linked h
if_lacking-Provided n target path lstat_found e k h = by_presence e
if_lacking-Provided n target path lstat_failed e k h = absurd (k refl)

unset-Provided :
    (n : Node) (target path : Bytes) (found : Option Bool)
    → (link_unset n.files path target found).1 ≡ none
    → Provided n target (link_unset n.files path target found).0
unfolding link_unset
unset-Provided n target path none h = absurd (ground arith)
unset-Provided n target path (some false) h = absurd (ground arith)
unset-Provided n target path (some true) h =
    link-Provided n target path (n.files.links path target) not_linked h

host_path-Provided :
    (n : Node) (target path : Bytes) (t : Option PathType)
    → n.files.lstat target ≢ lstat_failed
    → (mount_host_path n.files path t target).1 ≡ none
    → Provided n target (mount_host_path n.files path t target).0
unfolding mount_host_path
host_path-Provided n target path none k h =
    unset-Provided n target path (n.files.path_exists path) h
host_path-Provided n target path (some unset) k h =
    unset-Provided n target path (n.files.path_exists path) h
host_path-Provided n target path (some t) k h =
    then-Provided n target (set_up_host_path n.files path t)
      (link_if_lacking n.files path target (n.files.lstat target))
      (if_lacking-Provided n target path (n.files.lstat target) refl k) h

downward-Provided :
    (n : Node) (now : ℕ) (pod : Pod) (target : Bytes) (a : Answer) (rest : Done × Pod)
    → (after_dir (attempt a (make_dir target) not_made) rest pod).0.1 ≡ none
    → Provided n target (after_dir (attempt a (make_dir target) not_made) rest pod).0.0
unfolding after_dir
downward-Provided n now pod target performed rest h = by_dir
downward-Provided n now pod target present rest h = absurd (ground arith)
downward-Provided n now pod target refused rest h = absurd (ground arith)

selected-Provided :
    (n : Node) (now : ℕ) (pod : Pod) (target : Bytes) (s : Selected)
    → n.files.lstat target ≢ lstat_failed
    → (mount_selected n now pod target s).0.1 ≡ none
    → Provided n target (mount_selected n now pod target s).0.0
unfolding mount_selected in_new_dir downward_api_volume_source
selected-Provided n now pod target selected_empty_dir k h =
    then-dir n target (n.file_system.makes_dir target) not_made ([], none) h
selected-Provided n now pod target (selected_config_map s) k h =
    then-dir n target (n.file_system.makes_dir target) not_made
      (set_up_config_map n.writer s n.retry_config_map n.get_config_map target) h
selected-Provided n now pod target (selected_secret s) k h =
    then-dir n target (n.file_system.makes_dir target) not_made
      (set_up_secret n.writer s n.retry_secret n.get_secret target) h
selected-Provided n now pod target (selected_downward_api s) k h =
    downward-Provided n now pod target (n.file_system.makes_dir target)
      (after_collect n.file_system now n.cluster.message pod target
        (collect_data n.extract_field s.items (some (mode_or s.default_mode (pos 420)))))
      h
selected-Provided n now pod target (selected_host_path path t) k h =
    host_path-Provided n target path t k h
selected-Provided n now pod target selected_claim k h = claim-Provided n now pod target h
selected-Provided n now pod target selected_projected k h =
    then-dir n target (n.file_system.makes_dir target) not_made (n.sets_up_projected target) h
selected-Provided n now pod target selected_none k h = absurd (ground arith)

-- If mountVolumeSource gives no error, and Lstat of the path of the volume in the directory of the pod
-- does not fail with an error other than that there is nothing, then there is something at that path,
-- whatever the kind of the volume: a directory or a link is made there, or the file system answers that
-- there is something.
pub mount_volume_source-Provided :
    (n : Node) (now : ℕ) (pod : Pod) (dir : Bytes) (v : Volume)
    → n.files.lstat (join_path (volume_dir dir ∷ v.name ∷ [])) ≢ lstat_failed
    → (mount_volume_source n now pod dir v).0.1 ≡ none
    → Provided n
        (join_path (volume_dir dir ∷ v.name ∷ []))
        (mount_volume_source n now pod dir v).0.0
unfolding mount_volume_source
mount_volume_source-Provided n now pod dir v k h =
    selected-Provided n now pod (join_path (volume_dir dir ∷ v.name ∷ [])) (select v.source) k h
