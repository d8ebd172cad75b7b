-- ===== src/Volumes/Claims.antt =====
-- PersistentVolumeClaimSource of internal/compute/podhandler/volumes.go, and
-- CheckPersistentVolumeClaimModeBlock of internal/compute/volume/util/util.go.
pub mod Bound
use hpktainer.Base.{ℕ, Bool, true, false, Option, none, some, [], Bytes, codes}
use hpktainer.Pod.{Pod}
use hpktainer.Conditions.{pod_error}
use hpktainer.Volumes.{
  VolumeError, not_found, unbound_claim, unsupported_claim_mode, unsupported_volume, not_made,
  not_linked, Result, ok, err, make_dir, symlink, Done, ◌then◌, Answer, attempt, attempt_new, Retry,
}

pub data VolumeMode : Type 0 where
  mode_block mode_filesystem : VolumeMode

-- corev1.ClaimBound, and the other phases.
pub data ClaimPhase : Type 0 where
  claim_bound claim_other : ClaimPhase

pub record Claim : Type 0 where
  pub volume_mode : Option VolumeMode
  pub phase : ClaimPhase
  pub volume_name : Bytes

-- The paths of the two supported sources of a corev1.PersistentVolume, which are nil or not.
pub record PersistentVolume : Type 0 where
  pub host_path : Option Bytes
  pub local : Option Bytes

-- The answers to the attempts to get the claim and a volume, and to the calls of the file system; the
-- messages of the errors.
pub record Cluster : Type 0 where
  pub get_claim : ℕ → Result Claim
  pub get_volume : Bytes → ℕ → Result PersistentVolume
  pub made : Bytes → Answer
  pub linked : Bytes → Bytes → Answer
  pub message : Bytes → Bytes

-- CheckPersistentVolumeClaimModeBlock.
unfoldable pub check_persistent_volume_claim_mode_block : Option VolumeMode → Bool
check_persistent_volume_claim_mode_block (some mode_block) = true
check_persistent_volume_claim_mode_block (some mode_filesystem) = false
check_persistent_volume_claim_mode_block none = false

check_bound : ClaimPhase → Claim → Result Claim
check_bound claim_bound claim = ok claim
check_bound claim_other claim = err unbound_claim

check_mode : Bool → Claim → Result Claim
unfolding check_bound
check_mode true claim = err unsupported_claim_mode
check_mode false claim = check_bound claim.phase claim

-- One execution of the request for the claim.
unfoldable pub check_claim : Result Claim → Result Claim
unfolding check_mode
check_claim (err e) = err e
check_claim (ok claim) =
    check_mode (check_persistent_volume_claim_mode_block claim.volume_mode) claim

-- The retry conditions.
unfoldable pub is_claim_retried : VolumeError → Bool
is_claim_retried not_found = true
is_claim_retried unbound_claim = true
is_claim_retried _ = false

unfoldable pub is_not_found : VolumeError → Bool
is_not_found not_found = true
is_not_found _ = false

-- The links to the volume at the path `target`.
unfoldable pub link_volume : Cluster → Bytes → Option Bytes → Option Bytes → Done
link_volume s target (some path) local =
    attempt_new (s.made path) (make_dir path) not_made
    then attempt_new (s.linked path target) (symlink path target) not_linked
link_volume s target none (some path) =
    attempt (s.linked path target) (symlink path target) not_linked
link_volume s target none none = ([], some unsupported_volume)

unfoldable pub with_volume : Cluster → ℕ → Pod → Bytes → Result PersistentVolume → Done × Pod
unfolding link_volume
with_volume s now pod target (err e) =
    (([], some e), pod_error now pod (codes "PVError") (s.message (codes "PVError")))
with_volume s now pod target (ok v) = (link_volume s target v.host_path v.local, pod)

unfoldable pub with_claim :
    Cluster → Retry PersistentVolume → ℕ → Pod → Bytes → Result Claim → Done × Pod
unfolding with_volume
with_claim s retry now pod target (err e) =
    (([], some e), pod_error now pod (codes "PVCError") (s.message (codes "PVCError")))
with_claim s retry now pod target (ok claim) =
    with_volume s now pod target (retry is_not_found (s.get_volume claim.volume_name))

-- PersistentVolumeClaimSource; `target` is the path of the volume in the directory of the pod.
unfoldable pub persistent_volume_claim_source :
    Cluster → Retry Claim → Retry PersistentVolume → ℕ → Pod → Bytes → Done × Pod
unfolding with_claim
persistent_volume_claim_source s retry_claim retry_volume now pod target =
    with_claim s retry_volume now pod target
      (retry_claim is_claim_retried (λ n. check_claim (s.get_claim n)))
