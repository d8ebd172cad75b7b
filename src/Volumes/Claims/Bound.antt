-- ===== src/Volumes/Claims/Bound.antt =====
-- What PersistentVolumeClaimSource has linked when it gives no error, and when it gives none. Its
-- backoff has ten steps.
use hpktainer.Base.{
  ℕ, Option, none, some, List, [], ◌∷◌, Bytes, ◌≡◌, ◌≢◌, ◌<◌, refl, sym, ap, ◌∙◌, arith,
}
use hpktainer.Pod.{Pod}
use hpktainer.Volumes.{
  not_found, unbound_claim, Result, ok, err, Effect, make_dir, symlink, Answer, refused, performed,
  present, ◌then◌, attempt, attempt_new, not_made, not_linked, Retry, Retriable, Retries,
}
use hpktainer.Volumes.Attempts.{Retried-first, ok-stops}
use hpktainer.Volumes.Claims.{
  mode_block, claim_bound, claim_other, Claim, PersistentVolume, Cluster,
  check_persistent_volume_claim_mode_block, with_volume, with_claim, check_claim, check_mode,
  check_bound, is_claim_retried, is_not_found, link_volume, persistent_volume_claim_source,
}

not_found-waits : {A : Type 0} (r : Result A) → r ≡ err not_found → Retriable is_not_found r
unfolding is_not_found
not_found-waits (ok a) e = absurd (ground arith)
not_found-waits (err x) e = ground arith

-- A claim that can be used.
pub record Usable (claim : Claim) : Type 0 where
  pub is_bound : claim.phase ≡ claim_bound
  pub not_block : claim.volume_mode ≢ some mode_block

-- An attempt after which the code waits for another: there is no claim, or it is not bound yet.
pub data Transient : Result Claim → Type 0 where
  absent : Transient (err not_found)
  unbound :
      {claim : Claim}
      → claim.phase ≡ claim_other
      → claim.volume_mode ≢ some mode_block
      → Transient (ok claim)

-- What a directory at `path` that is made unless it is there, and a link to it from `target` that is
-- made unless something is there, need of the two answers, and the effects that they leave.
abbrev pub HostLinks : Answer → Answer → Bytes → Bytes → List Effect → Type 0
HostLinks performed performed path target effects =
    effects ≡ make_dir path ∷ symlink path target ∷ []
HostLinks performed present path target effects = effects ≡ make_dir path ∷ []
HostLinks present performed path target effects = effects ≡ symlink path target ∷ []
HostLinks present present path target effects = effects ≡ []
HostLinks _ _ path target effects = ⊥

-- How a volume with these sources is linked to `target`.
abbrev pub Links : Cluster → Bytes → Option Bytes → Option Bytes → List Effect → Type 0
Links s target (some path) local effects =
    HostLinks (s.made path) (s.linked path target) path target effects
Links s target none (some path) effects =
    (s.linked path target ≡ performed) × (effects ≡ symlink path target ∷ [])
Links s target none none effects = ⊥

check_claim-Usable :
    (r : Result Claim) (claim : Claim) → check_claim r ≡ ok claim → (r ≡ ok claim) × Usable claim
unfolding check_claim check_mode check_bound check_persistent_volume_claim_mode_block
check_claim-Usable (err x) claim e = absurd (ground arith)
check_claim-Usable (ok c) claim e =
    (ground arith, record { is_bound = ground arith; not_block = ground arith })

check_claim-ok : (claim : Claim) → Usable claim → check_claim (ok claim) ≡ ok claim
unfolding check_claim check_mode check_bound check_persistent_volume_claim_mode_block
check_claim-ok claim u = ground arith

unbound_lem :
    (claim : Claim)
    → claim.phase ≡ claim_other
    → claim.volume_mode ≢ some mode_block
    → check_claim (ok claim) ≡ err unbound_claim
unfolding check_claim check_mode check_bound check_persistent_volume_claim_mode_block
unbound_lem claim p m = ground arith

check_claim-Transient :
    (r : Result Claim) → Transient r → Retriable is_claim_retried (check_claim r)
unfolding check_claim is_claim_retried
check_claim-Transient _ absent = refl
check_claim-Transient _ (unbound {claim} p m) = rw (unbound_lem claim p m) refl

both_new :
    (a b : Answer) (path target : Bytes)
    → (attempt_new a (make_dir path) not_made then attempt_new b (symlink path target) not_linked).1
      ≡ none
    → HostLinks a b path target
        (attempt_new a (make_dir path) not_made
          then attempt_new b (symlink path target) not_linked).0
both_new refused b path target h = absurd (ground arith)
both_new performed refused path target h = absurd (ground arith)
both_new performed performed path target h = refl
both_new performed present path target h = refl
both_new present refused path target h = absurd (ground arith)
both_new present performed path target h = refl
both_new present present path target h = refl

performed_only :
    (a : Answer) (e : Effect)
    → (attempt a e not_linked).1 ≡ none
    → (a ≡ performed) × ((attempt a e not_linked).0 ≡ e ∷ [])
performed_only performed e h = (refl, refl)
performed_only present e h = absurd (ground arith)
performed_only refused e h = absurd (ground arith)

link_volume-Links :
    (s : Cluster) (target : Bytes) (host_path local : Option Bytes)
    → (link_volume s target host_path local).1 ≡ none
    → Links s target host_path local (link_volume s target host_path local).0
unfolding link_volume
link_volume-Links s target (some path) local e =
    both_new (s.made path) (s.linked path target) path target e
link_volume-Links s target none (some path) e =
    performed_only (s.linked path target) (symlink path target) e
link_volume-Links s target none none e = absurd (ground arith)

-- What is linked when there is no error: a claim, found in one of ten attempts, that is bound and not
-- for a block device, and the volume of its name, found in one of ten attempts.
pub record Linked (s : Cluster) (target : Bytes) (effects : List Effect) : Type 0 where
  pub claim : Claim
  pub volume : PersistentVolume
  pub claim_attempt : ℕ
  pub volume_attempt : ℕ
  pub claim_bound : claim_attempt < 10
  pub volume_bound : volume_attempt < 10
  pub claim_got : s.get_claim claim_attempt ≡ ok claim
  pub claim_usable : Usable claim
  pub volume_got : s.get_volume claim.volume_name volume_attempt ≡ ok volume
  pub links : Links s target volume.host_path volume.local effects

module _ (s : Cluster) (retry_claim : Retry Claim) (retry_volume : Retry PersistentVolume) (now : ℕ)
    (pod : Pod) (target : Bytes) (claim_retries : Retries 10 retry_claim)
    (volume_retries : Retries 10 retry_volume) where
  with_volume-Linked :
      (claim : Claim) (i j : ℕ) (r : Result PersistentVolume)
      → i < 10
      → s.get_claim i ≡ ok claim
      → Usable claim
      → j < 10
      → r ≡ s.get_volume claim.volume_name j
      → (with_volume s now pod target r).0.1 ≡ none
      → Linked s target (with_volume s now pod target r).0.0
        × ((with_volume s now pod target r).1 ≡ pod)
  unfolding with_volume
  with_volume-Linked claim i j (err e) b g u c f h = absurd (ground arith)
  with_volume-Linked claim i j (ok v) b g u c f h = (
    record {
      claim = claim;
      volume = v;
      claim_attempt = i;
      volume_attempt = j;
      claim_bound = b;
      volume_bound = c;
      claim_got = g;
      claim_usable = u;
      volume_got = sym f;
      links = link_volume-Links s target v.host_path v.local h;
    },
    refl,
  )

  with_claim-Linked :
      (i : ℕ) (r : Result Claim)
      → i < 10
      → r ≡ check_claim (s.get_claim i)
      → (with_claim s retry_volume now pod target r).0.1 ≡ none
      → Linked s target (with_claim s retry_volume now pod target r).0.0
        × ((with_claim s retry_volume now pod target r).1 ≡ pod)
  unfolding with_claim
  with_claim-Linked i (err e) b f h = absurd (ground arith)
  with_claim-Linked i (ok claim) b f h =
      let (got, usable) = check_claim-Usable (s.get_claim i) claim (sym f) in
      let v = volume_retries is_not_found (s.get_volume claim.volume_name) in
      with_volume-Linked claim i v.last (retry_volume is_not_found (s.get_volume claim.volume_name))
        b got usable v.last_bound v.last_result h

  -- If the two retries are those of retry.OnError with ten steps, and PersistentVolumeClaimSource gives
  -- no error, then one of ten attempts found a claim that is bound and not for a block device, one of
  -- ten attempts found its volume, and the pod is left as it is. For a host path, its directory is made
  -- unless the file system answers that it is there, and the link from the path in the directory of the
  -- pod is made unless the file system answers that something is there; for a local volume the link is
  -- made. There is no other effect.
  pub persistent_volume_claim_source-Linked :
      (persistent_volume_claim_source s retry_claim retry_volume now pod target).0.1 ≡ none
      → Linked s target
          (persistent_volume_claim_source s retry_claim retry_volume now pod target).0.0
        × ((persistent_volume_claim_source s retry_claim retry_volume now pod target).1 ≡ pod)
  unfolding persistent_volume_claim_source
  persistent_volume_claim_source-Linked h =
      let c = claim_retries is_claim_retried (λ n. check_claim (s.get_claim n)) in
      with_claim-Linked c.last (retry_claim is_claim_retried (λ n. check_claim (s.get_claim n)))
        c.last_bound c.last_result h

  -- If the two retries are those of retry.OnError with ten steps, fewer than ten attempts find no claim
  -- or one that is not bound, the next one finds a claim that can be used, fewer than ten attempts find
  -- no volume of its name, and the next one finds it, then PersistentVolumeClaimSource does what the
  -- kind of the volume asks for, with no error of the requests, and leaves the pod as it is.
  pub persistent_volume_claim_source-waits :
      (i j : ℕ) (claim : Claim) (volume : PersistentVolume)
      → i < 10
      → ((n : ℕ) → n < i → Transient (s.get_claim n))
      → s.get_claim i ≡ ok claim
      → Usable claim
      → j < 10
      → ((n : ℕ) → n < j → s.get_volume claim.volume_name n ≡ err not_found)
      → s.get_volume claim.volume_name j ≡ ok volume
      → persistent_volume_claim_source s retry_claim retry_volume now pod target
        ≡ (link_volume s target volume.host_path volume.local, pod)
  unfolding persistent_volume_claim_source with_claim with_volume
  persistent_volume_claim_source-waits i j claim volume b t g u c m f =
      let run = (λ (n : ℕ). check_claim (s.get_claim n)) in
      let found = ap check_claim g ∙ check_claim-ok claim u in
      let claimed =
        Retried-first i (claim_retries is_claim_retried run) b
          (λ n h. check_claim-Transient (s.get_claim n) (t n h))
          (ok-stops is_claim_retried (run i) claim found)
        ∙ found in
      let provided =
        Retried-first j (volume_retries is_not_found (s.get_volume claim.volume_name)) c
          (λ n h. not_found-waits (s.get_volume claim.volume_name n) (m n h))
          (ok-stops is_not_found (s.get_volume claim.volume_name j) volume f)
        ∙ f in
      ap (with_claim s retry_volume now pod target) claimed
      ∙ ap (with_volume s now pod target) provided
