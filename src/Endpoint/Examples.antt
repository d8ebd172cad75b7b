-- ===== src/Endpoint/Examples.antt =====
-- Tests for internal/compute/endpoint/paths.go.
use hpktainer.Base.{◌≡◌, refl, codes, join_path, clean, ext, beq, split, join}
use hpktainer.Endpoint.{hpk_path, pod_path, exit_code_path}

exit_file :
    exit_code_path
      (pod_path (hpk_path (codes "/home/u")) (codes "default") (codes "web"))
      (codes "main")
    ≡ codes "/home/u/.hpk/default/web/controlfiles/main.exitCode"
unfolding exit_code_path pod_path hpk_path join_path split join beq
exit_file = refl

cleaned : clean (codes "a/.././../b//c/") ≡ codes "../b/c"
unfolding clean split join beq
cleaned = refl

extension : ext (codes "x.y/main.jobid") ≡ codes ".jobid"
unfolding ext
extension = refl
