-- ===== src/Services/Examples.antt =====
-- Tests and instances for internal/compute/podhandler/envvars.go.
use hpktainer.Base.{true, [], ◌∷◌, codes, ◌≡◌, ◌≢◌, pos}
use hpktainer.Services.{Service, Master, from_services}
use hpktainer.Services.Isolation.{from_services-Foreign}

abbrev master : Master
master = record { host = codes "10.0.0.1"; port = codes "6443" }

abbrev web : Service
web = record {
  namespace = codes "app";
  name = codes "web-1";
  cluster_ip = codes "None";
  ports = record { name = []; port = pos 80; protocol = [] } ∷ [];
}

abbrev foreign : Service
foreign = record web { namespace = codes "other" }

foreign_here : codes "other" ≢ codes "app"
foreign_here e = cc

foreign_default : codes "other" ≢ codes "default"
foreign_default e = cc

from_services-Foreign_example :
    from_services master (codes "app") true (web ∷ foreign ∷ [])
    ≡ from_services master (codes "app") true (web ∷ [])
from_services-Foreign_example =
    from_services-Foreign master (codes "app") true (web ∷ []) [] foreign
      (foreign_here, foreign_default)
