-- ===== src/Pause/Preparation.antt =====
-- prepareContainers of cmd/hpk-pause/main.go with its four steps. The answers of the system are a
-- record, and the environment of the process is an association list. Setenv and Unsetenv do not fail
-- for the names that the code passes.
pub mod Steps
use hpktainer.Base.{
  Bool, true, false, Option, none, some, List, [], ◌∷◌, ◌++◌, Bytes, codes, if◌then◌else◌, ◌&&◌,
  ◌||◌, beq, has_prefix, trim_space, join, not, lookup,
}
use hpktainer.Endpoint.{ip_address_path}
use hpktainer.Pause.Dns.{get_host_resolv_conf, etc_resolv_conf}

-- corev1.DNSPolicy: Default, None, and the others.
pub data DnsPolicy : Type 0 where
  dns_default dns_none dns_other : DnsPolicy

-- corev1.PodDNSConfig.
pub record DnsConfig : Type 0 where
  pub searches : List Bytes
  pub nameservers : List Bytes
  pub options : List (Bytes × Option Bytes)

-- The parts of the pod that are read: `k8s_app` is the label k8s-app, if it has one.
pub record DnsPod : Type 0 where
  pub namespace : Bytes
  pub name : Bytes
  pub k8s_app : Option Bytes
  pub dns_policy : DnsPolicy
  pub dns_config : Option DnsConfig

-- An address of an interface: whether it is a net.IPNet, whether it is a loopback address, whether
-- To4 gives an address, and its text.
pub record Address : Type 0 where
  pub is_ip_net : Bool
  pub is_loopback : Bool
  pub is_ipv4 : Bool
  pub text : Bytes

pub record Host : Type 0 where
  pub read_file : Bytes → Option Bytes
  pub loopback : Bytes → Option Bool
  pub can_make_dir : Bytes → Bool
  pub can_write : Bytes → Bool
  pub hostname : Option Bytes
  pub addresses : Option (List Address)

-- The environment of the process.
abbrev pub Variables : Type 0
Variables = List (Bytes × Bytes)

-- The value of os.Getenv.
getenv : Bytes → Variables → Bytes
getenv name env = elim (lookup name env) [ none ↦ [] | some value ↦ value ]

is_core_dns : DnsPod → Bool
is_core_dns pod =
    has_prefix pod.name (codes "coredns")
    || (elim (pod.k8s_app) [ none ↦ false | some app ↦ beq app (codes "kube-dns") ])

policy_content : Host → Variables → DnsPod → Bytes → DnsPolicy → Bytes
unfolding getenv
policy_content h env pod kube_dns_ip dns_default =
    get_host_resolv_conf h.read_file h.loopback (getenv (codes "FALLBACK_DNS") env) kube_dns_ip
      etc_resolv_conf
policy_content h env pod kube_dns_ip dns_none = []
policy_content h env pod kube_dns_ip dns_other =
    codes "search "
    ++ (pod.namespace
        ++ (codes ".svc.cluster.local svc.cluster.local cluster.local\nnameserver "
            ++ (kube_dns_ip ++ codes "\noptions ndots:5\n")))

base_content : Host → Variables → DnsPod → Bytes → Bytes
unfolding is_core_dns policy_content
base_content h env pod kube_dns_ip =
    policy_content h env pod kube_dns_ip (if is_core_dns pod then dns_default else pod.dns_policy)

prefixed : Bytes → List Bytes → List Bytes
prefixed word [] = []
prefixed word (t ∷ ts) = (word ++ t) ∷ prefixed word ts

option_text : Bytes × Option Bytes → Bytes
option_text (name, none) = name
option_text (name, some value) = name ++ (codes ":" ++ value)

option_texts : List (Bytes × Option Bytes) → List Bytes
unfolding option_text
option_texts [] = []
option_texts (o ∷ os) = option_text o ∷ option_texts os

base_lines : Bytes → List Bytes
base_lines [] = []
base_lines (c ∷ content) = trim_space (c ∷ content) ∷ []

search_lines : List Bytes → List Bytes
search_lines [] = []
search_lines (s ∷ searches) = (codes "search " ++ join (s ∷ searches) b' ') ∷ []

with_config : Bytes → Option DnsConfig → Bytes
unfolding base_lines search_lines prefixed option_texts
with_config content none = content
with_config content (some config) =
    join
      (base_lines content
        ++ (search_lines config.searches
            ++ (prefixed (codes "nameserver ") config.nameservers
                ++ prefixed (codes "options ") (option_texts config.options))))
      b'\n'
    ++ codes "\n"

pub resolv_conf_content : Host → Variables → DnsPod → Bytes → Bytes
unfolding base_content with_config
resolv_conf_content h env pod kube_dns_ip =
    with_config (base_content h env pod kube_dns_ip) pod.dns_config

is_announced : Address → Bool
is_announced a = a.is_ip_net && (not a.is_loopback && a.is_ipv4)

-- The texts of the addresses that are announced.
pub ip_addresses : List Address → List Bytes
unfolding is_announced
ip_addresses [] = []
ip_addresses (a ∷ others) =
    let rest = ip_addresses others in if is_announced a then a.text ∷ rest else rest

pub hosts_content : List Address → Bytes → Bytes
hosts_content addresses hostname =
    codes "127.0.0.1 localhost\n"
    ++ (join (ip_addresses addresses) b' ' ++ (codes " " ++ (hostname ++ codes " \n")))

pub data Effect : Type 0 where
  make_dir : Bytes → Effect
  write_file : Bytes → Bytes → Effect

pub data PrepareError : Type 0 where
  no_scratch no_kube_dns resolv_conf_not_written no_hostname no_addresses : PrepareError
  hosts_not_written ip_not_written no_runtime_dir : PrepareError

-- The effects of a step, and its error.
abbrev pub Done : Type 0
Done = List Effect × Option PrepareError

-- A step, unless the one before has failed.
infixr 4 ◌then◌
abbrev pub ◌then◌ : Done → Done → Done
(effects, none) then (later, error) = (effects ++ later, error)
(effects, some e) then rest = (effects, some e)

abbrev pub attempt : Bool → Effect → PrepareError → Done
attempt true effect e = (effect ∷ [], none)
attempt false effect e = (effect ∷ [], some e)

attempt_write : Host → Bytes → Bytes → PrepareError → Done
attempt_write h path text e = attempt (h.can_write path) (write_file path text) e

attempt_dir : Host → Bytes → PrepareError → Done
attempt_dir h path e = attempt (h.can_make_dir path) (make_dir path) e

write_hosts : Host → Option Bytes → Option (List Address) → Done
unfolding attempt_write
write_hosts h none addresses = ([], some no_hostname)
write_hosts h (some hostname) none = ([], some no_addresses)
write_hosts h (some hostname) (some addresses) =
    attempt_write h (codes "/scratch/etc/hosts") (hosts_content addresses hostname)
      hosts_not_written

write_dns : Host → Variables → DnsPod → Bytes → Done
unfolding attempt_write write_hosts
write_dns h env pod [] = ([], some no_kube_dns)
write_dns h env pod (c ∷ kube_dns_ip) =
    attempt_write h (codes "/scratch/etc/resolv.conf")
      (resolv_conf_content h env pod (c ∷ kube_dns_ip)) resolv_conf_not_written
    then write_hosts h h.hostname h.addresses

pub prepare_dns : Host → Variables → DnsPod → Done
unfolding attempt_dir write_dns getenv
prepare_dns h env pod =
    attempt_dir h (codes "/scratch/etc") no_scratch
    then write_dns h env pod (getenv (codes "KUBEDNS_IP") env)

-- announceIP; `dir` is the directory of the pod.
pub announce_ip : Host → Bytes → Option (List Address) → Done
unfolding attempt_write
announce_ip h dir none = ([], some no_addresses)
announce_ip h dir (some addresses) =
    attempt_write h (ip_address_path dir) (join (ip_addresses addresses) b' ') ip_not_written
