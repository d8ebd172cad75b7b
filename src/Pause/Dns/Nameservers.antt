-- ===== src/Pause/Dns/Nameservers.antt =====
-- The resolv.conf that getHostResolvConf of cmd/hpk-pause/main.go makes: which lines of which file are
-- kept.
use hpktainer.Base.{
  Bool, true, false, Option, none, some, List, [], ◌∷◌, ◌++◌, Bytes, codes, ◌≡◌, All, ◌⊎◌, join,
  any, Lacks,
}
use hpktainer.Pause.Dns.{server, unwanted}

-- A line that names an unwanted server.
abbrev pub Unwanted : (Bytes → Option Bool) → Bytes → Bytes → Type 0
Unwanted loopback kube_dns_ip line =
    (address : Bytes) × ((server line ≡ some address)
      × (unwanted loopback kube_dns_ip address ≡ true))

-- A line that names no unwanted server.
abbrev pub Wanted : (Bytes → Option Bool) → Bytes → Bytes → Type 0
Wanted loopback kube_dns_ip line =
    (address : Bytes) → server line ≡ some address → unwanted loopback kube_dns_ip address ≡ false

-- Of the lines, in their order, exactly those that name an unwanted server are left out.
pub data Filtered (loopback : Bytes → Option Bool) (kube_dns_ip : Bytes)
    : List Bytes → List Bytes → Type 0 where
  filtered : Filtered loopback kube_dns_ip [] []
  keep :
      {lines kept : List Bytes} (line : Bytes)
      → Wanted loopback kube_dns_ip line
      → Filtered loopback kube_dns_ip lines kept
      → Filtered loopback kube_dns_ip (line ∷ lines) (line ∷ kept)
  leave :
      {lines kept : List Bytes} (line : Bytes)
      → Unwanted loopback kube_dns_ip line
      → Filtered loopback kube_dns_ip lines kept
      → Filtered loopback kube_dns_ip (line ∷ lines) kept

abbrev pub names_server : Bytes → Bool
names_server line = elim (server line) [ none ↦ false | some address ↦ true ]

-- The content of a file of the host, or none, is split into lines, and those kept are written, with the
-- fallback behind them if none names a server.
pub record Served (read_file : Bytes → Option Bytes) (loopback : Bytes → Option Bool)
    (kube_dns_ip fallback_dns : Bytes) (text : Bytes) : Type 0 where
  pub raw : Bytes
  pub lines : List Bytes
  pub kept : List Bytes
  pub from_file : (raw ≡ []) ⊎ ((path : Bytes) × (read_file path ≡ some raw))
  pub joined : join lines b'\n' ≡ raw
  pub are_lines : All (Lacks b'\n') lines
  pub is_filtered : Filtered loopback kube_dns_ip lines kept
  pub text_eq :
      ((any names_server kept ≡ true) × (text ≡ join kept b'\n' ++ codes "\n"))
      ⊎ ((any names_server kept ≡ false)
          × (text ≡ join (kept ++ (codes "nameserver " ++ fallback_dns) ∷ []) b'\n' ++ codes "\n"))

-- A content comes from a file.
abbrev pub FromFile : (Bytes → Option Bytes) → Bytes → Type 0
FromFile read_file raw = (raw ≡ []) ⊎ ((path : Bytes) × (read_file path ≡ some raw))

module _ (loopback : Bytes → Option Bool) (kube_dns_ip : Bytes) where
  abbrev Sound : List Bytes → List Bytes × Bool → Type 0
  Sound lines (kept, has) = Filtered loopback kube_dns_ip lines kept × (any names_server kept ≡ has)
