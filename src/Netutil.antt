-- ===== src/Netutil.antt =====
-- internal/netutil/copy.go: packets of a TAP interface, framed by a length of four bytes on a socket.
-- The TAP interface (water) and the connection are outside: what they deliver is an argument, and
-- what is written to them is the result. A connection is known by a number.
mod Framing
mod Session
mod Examples
use hpktainer.Base.{
  ℕ, zero, suc, ◌+◌, ◌*◌, ◌/◌, ◌%◌, ◌^◌, Bool, true, false, Option, none, some, List, [], ◌∷◌, ◌++◌,
  Bytes, if◌then◌else◌, ◌==◌, ltb, length, take, drop,
}

abbrev pub buffer_size : ℕ
buffer_size = 65536

-- binary.BigEndian.PutUint32 of uint32(n).
pub put_uint32 : ℕ → Bytes
put_uint32 n = (n / 2 ^ 24) % 256 ∷ (n / 2 ^ 16) % 256 ∷ (n / 2 ^ 8) % 256 ∷ n % 256 ∷ []

-- binary.BigEndian.Uint32.
pub uint32 : ℕ → ℕ → ℕ → ℕ → ℕ
uint32 a b c d = a * 2 ^ 24 + b * 2 ^ 16 + c * 2 ^ 8 + d

-- buf[:4+n] after PutUint32(buf[:4], uint32(n)).
pub frame : Bytes → Bytes
unfolding put_uint32
frame packet = put_uint32 (length packet) ++ packet

-- ActiveConnHolder.
pub record Holder : Type 0 where
  pub conn : Option ℕ

abbrev pub new_active_conn_holder : Holder
new_active_conn_holder = record { conn = none }

pub set_conn : Holder → ℕ → Holder
set_conn h conn = record h { conn = some conn }

pub get : Holder → Option ℕ
get h = h.conn

same_conn : Option ℕ → ℕ → Bool
same_conn none target = false
same_conn (some conn) target = conn == target

pub clear : Holder → ℕ → Holder
unfolding same_conn
clear h target = if same_conn h.conn target then record h { conn = none } else h

-- What ForwardTapToSocket does to the outside.
pub data Effect : Type 0 where
  sent : ℕ → Bytes → Effect
  closed : ℕ → Effect

-- One round: what tap.Read delivers (`none` is an error), the holder at that time, which other
-- threads may have changed, and after how many bytes conn.Write fails, if it does.
pub record Round : Type 0 where
  pub read : Option Bytes
  pub holder : Holder
  pub write_error : Option ℕ

forward_packet : Option ℕ → Bytes → Option ℕ → List Effect
forward_packet none packet write_error = []
forward_packet (some conn) packet none = sent conn (frame packet) ∷ []
forward_packet (some conn) packet (some n) = sent conn (take n (frame packet)) ∷ closed conn ∷ []

-- The effects of ForwardTapToSocket, and whether it returned (on a failed read).
pub forward_tap_to_socket : List Round → List Effect × Bool
unfolding forward_packet get
forward_tap_to_socket [] = ([], false)
forward_tap_to_socket (r ∷ rs) =
    let (effects, returned) = forward_tap_to_socket rs in
    elim (r.read) [
      | none ↦ ([], true)
      | some packet ↦ (forward_packet (get r.holder) packet r.write_error ++ effects, returned)
    ]

fixed_rounds : Holder → List (Option Bytes × Option ℕ) → List Round
fixed_rounds h [] = []
fixed_rounds h ((read, write_error) ∷ rest) =
    record { read = read; holder = h; write_error = write_error } ∷ fixed_rounds h rest

-- CopyFromTapToSocket: a holder that is set once.
pub copy_from_tap_to_socket : ℕ → List (Option Bytes × Option ℕ) → List Effect × Bool
unfolding fixed_rounds
copy_from_tap_to_socket conn reads =
    forward_tap_to_socket (fixed_rounds (set_conn new_active_conn_holder conn) reads)

-- How CopyFromSocketToTap ends; `unfinished` is an exhausted loop bound.
pub data SocketError : Type 0 where
  read_length read_payload write_tap unfinished : SocketError
  packet_too_large : ℕ → SocketError

-- io.ReadFull of n bytes.
pub read_full : ℕ → Bytes → Option (Bytes × Bytes)
read_full n stream = if ltb (length stream) n then none else some (take n stream, drop n stream)

-- The loop over the bytes that the socket delivers before it fails; `tap_ok` says whether a write to
-- the interface succeeds. The result lists what was written to the interface.
copy_loop : ℕ → (Bytes → Bool) → Bytes → List Bytes × SocketError
unfolding read_full
copy_loop zero tap_ok stream = ([], unfinished)
copy_loop (suc fuel) tap_ok (a ∷ b ∷ c ∷ d ∷ rest) =
    let n = uint32 a b c d in
    elim (ltb buffer_size n) [
      | true ↦ ([], packet_too_large n)
      | false ↦ elim (read_full n rest) [
        | none ↦ ([], read_payload)
        | some (packet, stream) ↦ elim (tap_ok packet) [
          | false ↦ ([], write_tap)
          | true ↦ let (written, end) = copy_loop fuel tap_ok stream in (packet ∷ written, end)
        ]
      ]
    ]
copy_loop (suc fuel) tap_ok _ = ([], read_length)

-- Each round takes at least the four bytes of a length.
pub copy_from_socket_to_tap : (Bytes → Bool) → Bytes → List Bytes × SocketError
unfolding copy_loop
copy_from_socket_to_tap tap_ok stream = copy_loop (suc (length stream)) tap_ok stream
