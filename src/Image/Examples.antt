-- ===== src/Image/Examples.antt =====
-- Tests and instances for internal/compute/image.
use hpktainer.Base.{true, Bytes, codes, ◌≡◌, refl, split, has_prefix, beq, arith}
use hpktainer.Image.{
  missing, located, parse_image_name, split_once, Surroundings, pull, resolve_local, image_path,
  Node, docker,
}
use hpktainer.Image.Names.{parse_image_name-port}
use hpktainer.Image.Downloads.{Missing, Tidy, pull-Tidy}
use hpktainer.Image.Concurrent.{
  Reachable, start, next, Exclusive, Reachable-Exclusive, start_pulls, go_to, acquire, complete,
  Pulls, before_lock, downloading, look_missing, locks, again_missing, succeeds,
}

named :
    parse_image_name (codes "docker.io/istio/details-v1:1.16.2")
    ≡ codes "/docker.io_istio_details-v1_1.16.2.sif"
unfolding parse_image_name split split_once
named = refl

named_digest : parse_image_name (codes "img@sha256:123456") ≡ codes "/img_latest_sha256_123456.sif"
unfolding parse_image_name split split_once beq
named_digest = refl

parse_image_name-port_example :
    parse_image_name (codes "host:5000/app:v2") ≡ parse_image_name (codes "host:5000/app")
parse_image_name-port_example =
    parse_image_name-port (codes "host") (codes "5000/app") (codes "v2") (ground arith)
      (ground arith) (ground arith) (ground arith) (ground arith)

abbrev surroundings : Surroundings
surroundings = record {
  stat = λ p. missing;
  stat_locked = λ p. missing;
  unix_nano = 7;
  downloads = true;
  renames = true;
}

pull-Tidy_example :
    let r = pull surroundings (codes "/images") docker (codes "busybox") in
    Tidy surroundings (codes "/images") docker (codes "busybox") r.0 r.1
pull-Tidy_example = pull-Tidy surroundings (codes "/images") docker (codes "busybox")

pulled :
    (pull surroundings (codes "/images") docker (codes "busybox")).1
    ≡ located (codes "/images/busybox_latest.sif")
unfolding pull resolve_local has_prefix parse_image_name split split_once
pulled = refl

abbrev nothing : Bytes → Node
nothing path = missing

absent : Missing (resolve_local nothing (codes "/images") (codes "busybox"))
unfolding resolve_local has_prefix
absent = tt

abbrev after_one : Pulls
after_one =
    complete (image_path (codes "/images") (codes "busybox")) 3
      (go_to 3 downloading (acquire 3 (go_to 3 before_lock (start_pulls nothing))))

one_download : Reachable (codes "/images") (codes "busybox") after_one
unfolding start_pulls acquire complete
one_download =
    next
      (next (next (next (start nothing) (look_missing 3 refl absent)) (locks 3 refl refl))
        (again_missing 3 refl absent))
      (succeeds 3 refl)

Reachable-Exclusive_example : Exclusive (codes "/images") (codes "busybox") after_one
Reachable-Exclusive_example = Reachable-Exclusive (codes "/images") (codes "busybox") one_download
