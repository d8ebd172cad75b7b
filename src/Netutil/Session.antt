-- ===== src/Netutil/Session.antt =====
-- Sessions of internal/netutil/copy.go: the active connection and what is forwarded to it.
use hpktainer.Base.{
  ◌+◌, ◌≤◌, length, All, Bool-cases, inl, inr, ℕ, ◌≡◌, refl, true, Option, none, some, List, [],
  ◌∷◌, ◌++◌, Bytes, arith, if◌then◌else◌, ◌==◌,
}
use hpktainer.Netutil.{
  Holder, set_conn, get, clear, Effect, sent, closed, Round, frame, forward_packet,
  forward_tap_to_socket, buffer_size, copy_from_socket_to_tap, read_length,
}
use hpktainer.Netutil.Framing.{frames, copy-frames}

-- A session that ends removes its own connection, and leaves the connection of a newer session alone.
pub get-clear-set :
    (h : Holder) (conn target : ℕ)
    → get (clear (set_conn h conn) target) ≡ (if conn == target then none else some conn)
unfolding get clear set_conn
get-clear-set h conn target = ground arith

-- The bytes that the effects send to one connection.
abbrev pub sent_to : ℕ → List Effect → Bytes
sent_to conn [] = []
sent_to conn (sent c bytes ∷ es) = if c == conn then bytes ++ sent_to conn es else sent_to conn es
sent_to conn (closed c ∷ es) = sent_to conn es

keep : ℕ → Option Bytes → Option ℕ → List Bytes → List Bytes
keep conn none active more = []
keep conn (some packet) none more = more
keep conn (some packet) (some c) more = if c == conn then packet ∷ more else more

-- The packets that were read while one connection was the active one, up to a failed read.
pub active_packets : ℕ → List Round → List Bytes
active_packets conn [] = []
active_packets conn (r ∷ rs) = keep conn r.read (get r.holder) (active_packets conn rs)

abbrev pub Fits : Option Bytes → Type 0
Fits none = Unit
Fits (some packet) = length packet + 4 ≤ buffer_size

-- Every write succeeds, and every packet was read into the buffer behind the place of its length.
abbrev pub Sound : List Round → Type 0
Sound [] = Unit
Sound (r ∷ rs) = ((r.write_error ≡ none) × Fits r.read) × Sound rs

sent_to-forward_packet :
    (conn : ℕ) (o : Option ℕ) (packet : Bytes) (es : List Effect)
    → sent_to conn (forward_packet o packet none ++ es) ≡ elim o as (λ x. Bytes) [
      | none ↦ sent_to conn es
      | some c ↦ if c == conn then frame packet ++ sent_to conn es else sent_to conn es
    ]
unfolding forward_packet
sent_to-forward_packet conn none packet es = refl
sent_to-forward_packet conn (some c) packet es = refl

-- If every write succeeds, a connection is sent the frames of exactly the packets that were read
-- while it was the active one, in their order; other packets are dropped or go elsewhere.
pub sent_to-forward :
    (conn : ℕ) (rs : List Round)
    → Sound rs
    → sent_to conn (forward_tap_to_socket rs).0 ≡ frames (active_packets conn rs)
unfolding forward_tap_to_socket active_packets keep
sent_to-forward conn [] h = refl
sent_to-forward conn (r ∷ rs) h = ground (
  arith,
  sent_to-forward conn rs h.1,
  h.0.0,
  λ (p : Bytes). sent_to-forward_packet conn (get r.holder) p (forward_tap_to_socket rs).0,
)

keep-fit :
    (conn : ℕ) (read : Option Bytes) (active : Option ℕ) (more : List Bytes)
    → Fits read
    → All (λ p. length p ≤ buffer_size) more
    → All (λ p. length p ≤ buffer_size) (keep conn read active more)
unfolding keep
keep-fit conn none active more h k = tt
keep-fit conn (some packet) none more h k = k
keep-fit conn (some packet) (some c) more h k = elim (Bool-cases (c == conn)) [
  | inl e ↦ rw e (omega (arith, h), k)
  | inr e ↦ rw e k
]

active_packets-fit :
    (conn : ℕ) (rs : List Round)
    → Sound rs
    → All (λ p. length p ≤ buffer_size) (active_packets conn rs)
unfolding active_packets
active_packets-fit conn [] h = tt
active_packets-fit conn (r ∷ rs) h =
    keep-fit conn r.read (get r.holder) (active_packets conn rs) h.0.1
      (active_packets-fit conn rs h.1)

-- Between two daemons: if every write succeeds, the far end writes to its interface exactly the
-- packets that were read while the connection was the active one.
pub copy-forward :
    (conn : ℕ) (rs : List Round)
    → Sound rs
    → copy_from_socket_to_tap (λ x. true) (sent_to conn (forward_tap_to_socket rs).0)
      ≡ (active_packets conn rs, read_length)
copy-forward conn rs h =
    rw (sent_to-forward conn rs h)
      (copy-frames (active_packets conn rs) (active_packets-fit conn rs h))
