-- ===== src/Pause/Dns.antt =====
-- getHostResolvConf and prepareDNS of cmd/hpk-pause/main.go: the content of resolv.conf and hosts.
-- Reads of files and environment variables are arguments; net.ParseIP with IsLoopback is a function
-- that gives none for a text that is no address.
pub mod Nameservers
use hpktainer.Base.{
  Bool, true, false, Option, none, some, List, [], ◌∷◌, ◌++◌, Bytes, codes, if◌then◌else◌, ◌&&◌,
  ◌||◌, beq, has_prefix, contains, trim_space, split, join, fields,
}

abbrev pub etc_resolv_conf : Bytes
etc_resolv_conf = codes "/etc/resolv.conf"

abbrev pub systemd_resolv_conf : Bytes
systemd_resolv_conf = codes "/run/systemd/resolve/resolv.conf"

non_blank : Bytes → Option Bytes
non_blank content = if beq (trim_space content) [] then none else some content

-- The file of systemd in place of the stub, if it has content.
or_systemd : Option Bytes → Bytes → Bytes
or_systemd none content = content
or_systemd (some sysb) content = if beq (trim_space sysb) [] then content else sysb

usable : (Bytes → Option Bytes) → Bytes → Option Bytes → Option Bytes
unfolding non_blank or_systemd
usable read_file p none = none
usable read_file p (some content) = non_blank (
    if contains content (codes "127.0.0.53") && beq p etc_resolv_conf
    then or_systemd (read_file systemd_resolv_conf) content
    else content)

-- The loop over the paths; no content is the empty text.
raw_conf : (Bytes → Option Bytes) → List Bytes → Bytes
unfolding usable
raw_conf read_file [] = []
raw_conf read_file (p ∷ paths) = elim (usable read_file p (read_file p)) [
  | some content ↦ content
  | none ↦ raw_conf read_file paths
]

unfoldable pub or_default : Bytes → Bytes → Bytes
or_default [] default = default
or_default (c ∷ s) default = c ∷ s

conf_paths : Bytes → List Bytes
conf_paths path = path ∷ (if beq path etc_resolv_conf then systemd_resolv_conf ∷ [] else [])

-- The address of a line that names a server: parts[1].
server_of_parts : List Bytes → Option Bytes
server_of_parts (word ∷ address ∷ _) = some address
server_of_parts _ = none

unfoldable pub server : Bytes → Option Bytes
unfolding server_of_parts
server line =
    if has_prefix (trim_space line) (codes "nameserver")
    then server_of_parts (fields (trim_space line))
    else none

-- `ip != nil && (ip.IsLoopback() || ipStr == kubeDNSIP)`.
unfoldable pub unwanted : (Bytes → Option Bool) → Bytes → Bytes → Bool
unwanted loopback kube_dns_ip address = elim (loopback address) [
  | none ↦ false
  | some is_loopback ↦ is_loopback || beq address kube_dns_ip
]

-- One line, in front of the lines kept of the later ones and of whether they name a server.
keep_line :
    (Bytes → Option Bool) → Bytes → Option Bytes → Bytes → List Bytes × Bool → List Bytes × Bool
keep_line loopback kube_dns_ip none line (kept, has) = (line ∷ kept, has)
keep_line loopback kube_dns_ip (some address) line (kept, has) =
    if unwanted loopback kube_dns_ip address then (kept, has) else (line ∷ kept, true)

filter_lines : (Bytes → Option Bool) → Bytes → List Bytes → List Bytes × Bool
unfolding keep_line
filter_lines loopback kube_dns_ip [] = ([], false)
filter_lines loopback kube_dns_ip (line ∷ lines) =
    keep_line loopback kube_dns_ip (server line) line (filter_lines loopback kube_dns_ip lines)

fallback_line : Bytes → Bytes
fallback_line fallback_dns = codes "nameserver " ++ fallback_dns

valid_lines : Bytes → List Bytes × Bool → List Bytes
unfolding fallback_line
valid_lines fallback_dns (kept, has) = if has then kept else kept ++ fallback_line fallback_dns ∷ []

of_raw : (Bytes → Option Bool) → Bytes → Bytes → Bytes → Bytes
unfolding valid_lines filter_lines
of_raw loopback kube_dns_ip fallback_dns [] = fallback_line fallback_dns ++ codes "\n"
of_raw loopback kube_dns_ip fallback_dns (c ∷ raw) =
    join (valid_lines fallback_dns (filter_lines loopback kube_dns_ip (split (c ∷ raw) b'\n')))
      b'\n'
    ++ codes "\n"

-- getHostResolvConf, with the value of FALLBACK_DNS.
unfoldable pub get_host_resolv_conf :
    (Bytes → Option Bytes) → (Bytes → Option Bool) → Bytes → Bytes → Bytes → Bytes
unfolding of_raw raw_conf conf_paths or_default
get_host_resolv_conf read_file loopback fallback_dns kube_dns_ip resolv_conf_path =
    of_raw loopback kube_dns_ip (or_default fallback_dns (codes "1.1.1.1"))
      (raw_conf read_file (conf_paths (or_default resolv_conf_path etc_resolv_conf)))
