-- ===== src/Services.antt =====
-- internal/compute/podhandler/envvars.go: the environment variables that tell a container where the
-- services are. The services that the API server lists, and the address and the port of the API
-- server, are arguments. Letters are ASCII.
pub mod Isolation
pub mod Examples
use hpktainer.Base.{
  ℕ, Bool, true, Option, none, some, List, [], ◌∷◌, ◌++◌, Bytes, codes, ℤ, int32, atoi, itoa,
  if◌then◌else◌, ◌==◌, ◌&&◌, ◌||◌, leb, ◌+◌, ◌-◌, beq, any, map,
}
use hpktainer.Expansion.Callers.{EnvVar}

-- corev1.ServicePort and corev1.Service, as far as they are read.
pub record ServicePort : Type 0 where
  pub name : Bytes
  pub port : ℤ
  pub protocol : Bytes

pub record Service : Type 0 where
  pub namespace : Bytes
  pub name : Bytes
  pub cluster_ip : Bytes
  pub ports : List ServicePort

upper : ℕ → ℕ
upper c = if leb b'a' c && leb c b'z' then c - 32 else c

lower : ℕ → ℕ
lower c = if leb b'A' c && leb c b'Z' then c + 32 else c

-- strings.ToUpper and strings.ToLower.
pub to_upper : Bytes → Bytes
unfolding upper
to_upper s = map upper s

pub to_lower : Bytes → Bytes
unfolding lower
to_lower s = map lower s

-- makeEnvVariableName.
pub make_env_variable_name : Bytes → Bytes
make_env_variable_name str = to_upper (map (λ c. if c == b'-' then b'_' else c) str)

abbrev pub namespace_default : Bytes
namespace_default = codes "default"

unfoldable pub is_default_kubernetes : Service → Bool
is_default_kubernetes s = beq s.namespace namespace_default && beq s.name (codes "kubernetes")

-- Whether the service is added for a pod of the namespace.
unfoldable pub is_selected : Bytes → Bool → Service → Bool
unfolding is_default_kubernetes
is_selected namespace enable_links s =
    is_default_kubernetes s
    || (enable_links && (beq s.namespace namespace || beq s.namespace namespace_default))

-- KubeMasterHost and KubeMasterPort of compute.Environment.
pub record Master : Type 0 where
  pub host : Bytes
  pub port : Bytes

set_first_port : Option ℤ → List ServicePort → List ServicePort
set_first_port (some port) (p ∷ ports) = record p { port = int32 port } ∷ ports
set_first_port _ ports = ports

master_port : Bytes → Option ℤ
master_port [] = none
master_port (c ∷ port) = atoi (c ∷ port)

-- The address by which the service is found: that of the API server, or its name.
with_address : Master → Service → Service
unfolding set_first_port master_port is_default_kubernetes
with_address m s =
    if is_default_kubernetes s
    then record s { cluster_ip = m.host; ports = set_first_port (master_port m.port) s.ports }
    else record s { cluster_ip = s.name }

-- net.JoinHostPort.
join_host_port : Bytes → Bytes → Bytes
join_host_port host port =
    if any (λ c. c == b':') host
    then codes "[" ++ (host ++ (codes "]:" ++ port))
    else host ++ (codes ":" ++ port)

variable : Bytes → Bytes → EnvVar
variable name value = record { name = name; value = value }

protocol_of : Bytes → Bytes
protocol_of [] = codes "TCP"
protocol_of (c ∷ protocol) = c ∷ protocol

port_url : Bytes → ServicePort → Bytes
unfolding protocol_of join_host_port
port_url cluster_ip p =
    to_lower (protocol_of p.protocol) ++ (codes "://" ++ join_host_port cluster_ip (itoa p.port))

-- The four variables of one port in makeLinkVariables.
link_port : Bytes → Bytes → ServicePort → List EnvVar
unfolding variable protocol_of port_url
link_port prefix cluster_ip p =
    let port_prefix =
      prefix
      ++ (codes "_PORT_" ++ (itoa p.port ++ (codes "_" ++ to_upper (protocol_of p.protocol)))) in
    variable port_prefix (port_url cluster_ip p)
    ∷ variable (port_prefix ++ codes "_PROTO") (to_lower (protocol_of p.protocol))
    ∷ variable (port_prefix ++ codes "_PORT") (itoa p.port)
    ∷ variable (port_prefix ++ codes "_ADDR") cluster_ip
    ∷ []

link_ports : Bytes → Bytes → List ServicePort → List EnvVar
unfolding link_port
link_ports prefix cluster_ip [] = []
link_ports prefix cluster_ip (p ∷ ports) =
    link_port prefix cluster_ip p ++ link_ports prefix cluster_ip ports

first_port_link : Bytes → Bytes → List ServicePort → List EnvVar
unfolding variable port_url
first_port_link prefix cluster_ip [] = []
first_port_link prefix cluster_ip (p ∷ ports) =
    variable (prefix ++ codes "_PORT") (port_url cluster_ip p) ∷ []

pub make_link_variables : Service → List EnvVar
unfolding first_port_link link_ports
make_link_variables s =
    let prefix = make_env_variable_name s.name in
    first_port_link prefix s.cluster_ip s.ports ++ link_ports prefix s.cluster_ip s.ports

named_ports : Bytes → List ServicePort → List EnvVar
unfolding variable
named_ports name [] = []
named_ports name (p ∷ ports) =
    let rest = named_ports name ports in
    if beq p.name []
    then rest
    else variable (name ++ (codes "_" ++ make_env_variable_name p.name)) (itoa p.port) ∷ rest

first_port : List ServicePort → Bytes
first_port [] = []
first_port (p ∷ ports) = itoa p.port

-- The variables of one service that has ports.
addressed_variables : Service → List EnvVar
unfolding variable named_ports first_port
addressed_variables s =
    let name = make_env_variable_name s.name ++ codes "_SERVICE_PORT" in
    variable (make_env_variable_name s.name ++ codes "_SERVICE_HOST") s.cluster_ip
    ∷ variable name (first_port s.ports)
    ∷ (named_ports name s.ports ++ make_link_variables s)

service_variables : Master → List ServicePort → Service → List EnvVar
unfolding addressed_variables with_address
service_variables m [] s = []
service_variables m (p ∷ ports) s = addressed_variables (with_address m s)

-- FromServices of the services that were listed.
unfoldable pub from_services : Master → Bytes → Bool → List Service → List EnvVar
unfolding service_variables
from_services m namespace enable_links [] = []
from_services m namespace enable_links (s ∷ services) =
    let rest = from_services m namespace enable_links services in
    if is_selected namespace enable_links s then service_variables m s.ports s ++ rest else rest

-- FromServicesForPod; `none` is a failure of the list.
unfoldable pub from_services_for_pod :
    Master → Bytes → Option Bool → Option (List Service) → Option (List EnvVar)
unfolding from_services
from_services_for_pod m namespace enable_service_links none = none
from_services_for_pod m namespace none (some services) =
    some (from_services m namespace true services)
from_services_for_pod m namespace (some enable) (some services) =
    some (from_services m namespace enable services)
