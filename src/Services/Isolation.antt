-- ===== src/Services/Isolation.antt =====
-- Which services FromServices of internal/compute/podhandler/envvars.go tells a pod of.
use hpktainer.Base.{Bool, true, false, List, [], ◌∷◌, ◌++◌, Bytes, ◌≡◌, ◌≢◌, refl, arith, beq_iff}
use hpktainer.Services.{
  Service, Master, is_default_kubernetes, is_selected, from_services, namespace_default,
}

-- A service that a pod is not told of: one of another namespace than its own and the default one, or,
-- when links are disabled, any but the API server.
abbrev pub Foreign : Bytes → Bool → Service → Type 0
Foreign namespace true s = (s.namespace ≢ namespace) × (s.namespace ≢ namespace_default)
Foreign namespace false s = is_default_kubernetes s ≡ false

Foreign-is_selected :
    (namespace : Bytes) (enable : Bool) (s : Service)
    → Foreign namespace enable s
    → is_selected namespace enable s ≡ false
unfolding is_selected is_default_kubernetes
Foreign-is_selected namespace true s f =
    ground (arith, f.0, f.1, beq_iff s.namespace namespace, beq_iff s.namespace namespace_default)
Foreign-is_selected namespace false s f = ground (arith, f)

-- A service that is foreign to the pod changes none of its variables, wherever it stands in the list
-- of services.
pub from_services-Foreign :
    (m : Master) (namespace : Bytes) (enable : Bool) (before after : List Service) (s : Service)
    → Foreign namespace enable s
    → from_services m namespace enable (before ++ s ∷ after)
      ≡ from_services m namespace enable (before ++ after)
unfolding from_services
from_services-Foreign m namespace enable [] after s f =
    rw (Foreign-is_selected namespace enable s f) refl
from_services-Foreign m namespace enable (b ∷ before) after s f =
    ground (arith, from_services-Foreign m namespace enable before after s f)
