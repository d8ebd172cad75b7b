-- ===== src/Netutil/Framing.antt =====
-- Framing of internal/netutil/copy.go: what is forwarded is read back.
use hpktainer.Base.{
  ◌⊎◌, ℕ, zero, suc, ◌/◌, ◌%◌, ◌^◌, ◌≤◌, ◌<◌, ◌≡◌, ◌≢◌, ◌∙◌, refl, sym, ap, Bool, true, some, List,
  [], ◌∷◌, ◌++◌, Bytes, ltb, arith, All, Bool-cases, inl, inr, length, take, drop, length-append,
  take-length, drop-length, append_assoc, All-drop, length-take, length-drop, take-append-drop,
}
use hpktainer.Netutil.{
  buffer_size, put_uint32, uint32, frame, read_full, copy_loop, copy_from_socket_to_tap,
  SocketError, read_length, unfinished, packet_too_large, read_payload, write_tap,
}

-- The frames of the packets, one behind the other.
abbrev pub frames : List Bytes → Bytes
frames [] = []
frames (p ∷ ps) = frame p ++ frames ps

uint32-put_uint32 :
    (n : ℕ)
    → n < 2 ^ 32
    → uint32 ((n / 2 ^ 24) % 256) ((n / 2 ^ 16) % 256) ((n / 2 ^ 8) % 256) (n % 256) ≡ n
unfolding uint32
uint32-put_uint32 n h = omega arith

read_full-append : (p s : Bytes) → read_full (length p) (p ++ s) ≡ some (p, s)
unfolding read_full
read_full-append p s = ground (arith, length-append p s, take-length p s, drop-length p s)

-- One round on a frame.
copy_frame :
    (fuel : ℕ) (p s : Bytes)
    → length p ≤ buffer_size
    → copy_loop (suc fuel) (λ x. true) (frame p ++ s)
      ≡ (p ∷ (copy_loop fuel (λ x. true) s).0, (copy_loop fuel (λ x. true) s).1)
unfolding copy_loop frame
copy_frame fuel p s h = ground (arith, uint32-put_uint32 (length p), read_full-append p s)

length-put_uint32 : (n : ℕ) → length (put_uint32 n) ≡ 4
unfolding put_uint32
length-put_uint32 n = refl

length-frames : (ps : List Bytes) → length ps ≤ length (frames ps)
unfolding frame
length-frames [] = omega arith
length-frames (p ∷ ps) = omega (
  arith,
  length-append (frame p) (frames ps),
  length-frames ps,
  length-append (put_uint32 (length p)) p,
  length-put_uint32 (length p),
)

copy_frames :
    (fuel : ℕ) (ps : List Bytes)
    → length ps < fuel
    → All (λ p. length p ≤ buffer_size) ps
    → copy_loop fuel (λ x. true) (frames ps) ≡ (ps, read_length)
copy_frames zero ps h k = elim h [ ]
copy_frames (suc fuel) [] h k = unfold copy_loop in refl
copy_frames (suc fuel) (p ∷ ps) h k =
    copy_frame fuel p (frames ps) k.0
    ∙ ap (λ (r : List Bytes × SocketError). (p ∷ r.0, r.1)) (copy_frames fuel ps (omega arith) k.1)

-- CopyFromSocketToTap writes exactly the packets whose frames stand on the socket, in their order,
-- and ends when the next length cannot be read, provided that the interface takes every write and no
-- packet is larger than the buffer.
pub copy-frames :
    (ps : List Bytes)
    → All (λ p. length p ≤ buffer_size) ps
    → copy_from_socket_to_tap (λ x. true) (frames ps) ≡ (ps, read_length)
unfolding copy_from_socket_to_tap
copy-frames ps h = copy_frames (suc (length (frames ps))) ps (omega (arith, length-frames ps)) h

put_uint32-uint32 :
    (a b c d : ℕ)
    → a < 256
    → b < 256
    → c < 256
    → d < 256
    → put_uint32 (uint32 a b c d) ≡ a ∷ b ∷ c ∷ d ∷ []
unfolding put_uint32 uint32
put_uint32-uint32 a b c d ha hb hc hd =
    let p : (uint32 a b c d / 2 ^ 24) % 256 ≡ a = omega arith in
    let q : (uint32 a b c d / 2 ^ 16) % 256 ≡ b = omega arith in
    let r : (uint32 a b c d / 2 ^ 8) % 256 ≡ c = omega arith in
    let s : uint32 a b c d % 256 ≡ d = omega arith in ground (arith, p, q, r, s)

-- What a run has written, framed, is the beginning of what the socket delivered.
Accounts : Bytes → List Bytes × SocketError → Type 0
Accounts stream r =
    (rest : Bytes) × (stream ≡ frames r.0 ++ rest)
    × All (λ p. length p ≤ buffer_size) r.0
    × (r.1 ≢ unfinished)

-- A round ends the run and writes nothing, or writes the packet that stands behind its length.
Round : ℕ → (Bytes → Bool) → ℕ → Bytes → List Bytes × SocketError → Type 0
Round fuel tap_ok n rest r =
    ((e : SocketError) × (r ≡ ([], e)) × (e ≢ unfinished))
    ⊎ ((n ≤ buffer_size)
        × (n ≤ length rest)
        × (r ≡ (
          take n rest ∷ (copy_loop fuel tap_ok (drop n rest)).0,
          (copy_loop fuel tap_ok (drop n rest)).1,
        )))

copy_round :
    (fuel : ℕ) (tap_ok : Bytes → Bool) (a b c d : ℕ) (rest : Bytes)
    → Round fuel tap_ok (uint32 a b c d) rest (copy_loop (suc fuel) tap_ok (a ∷ b ∷ c ∷ d ∷ rest))
unfolding Round copy_loop
copy_round fuel tap_ok a b c d rest = elim (Bool-cases (ltb buffer_size (uint32 a b c d))) [
  | inl e ↦ inl (packet_too_large (uint32 a b c d), ground arith, λ x. cc)
  | inr e ↦ elim (Bool-cases (ltb (length rest) (uint32 a b c d))) [
    | inl f ↦ inl (read_payload, ground arith, λ x. cc)
    | inr f ↦ elim (Bool-cases (tap_ok (take (uint32 a b c d) rest))) [
      | inl g ↦ inr (ground arith, ground arith, ground arith)
      | inr g ↦ inl (write_tap, ground arith, λ x. cc)
    ]
  ]
]

take-frame :
    (n : ℕ) (rest tail : Bytes)
    → n ≤ length rest
    → drop n rest ≡ tail
    → put_uint32 n ++ rest ≡ frame (take n rest) ++ tail
unfolding frame
take-frame n rest tail h e =
    let p : length (take n rest) ≡ n = omega (arith, length-take n rest) in
    rw (p, ← e, take-append-drop)

copy_loop-Accounts :
    (fuel : ℕ) (tap_ok : Bytes → Bool) (stream : Bytes)
    → length stream < fuel
    → All (λ b. b < 256) stream
    → Accounts stream (copy_loop fuel tap_ok stream)
unfolding Accounts Round
copy_loop-Accounts zero tap_ok stream h k = elim h [ ]
copy_loop-Accounts (suc fuel) tap_ok [] h k = unfold copy_loop in ([], refl, tt, λ e. cc)
copy_loop-Accounts (suc fuel) tap_ok (a ∷ []) h k = unfold copy_loop in (a ∷ [], refl, tt, λ e. cc)
copy_loop-Accounts (suc fuel) tap_ok (a ∷ b ∷ []) h k =
    unfold copy_loop in (a ∷ b ∷ [], refl, tt, λ e. cc)
copy_loop-Accounts (suc fuel) tap_ok (a ∷ b ∷ c ∷ []) h k =
    unfold copy_loop in (a ∷ b ∷ c ∷ [], refl, tt, λ e. cc)
copy_loop-Accounts (suc fuel) tap_ok (a ∷ b ∷ c ∷ d ∷ rest) h k =
    unfold Round in
    elim (copy_round fuel tap_ok a b c d rest) [
      | inl (e, p, q) ↦ rw p (a ∷ b ∷ c ∷ d ∷ rest, refl, tt, q)
      | inr (small, fits, p) ↦
          let n = uint32 a b c d in
          let (tail, e, bounded, ends) =
            copy_loop-Accounts fuel tap_ok (drop n rest) (omega (arith, length-drop n rest))
              (All-drop (λ x. x < 256) n rest k.1.1.1.1) in
          rw p (
            tail,
            ap (λ (x : Bytes). x ++ rest)
                  (sym (put_uint32-uint32 a b c d k.0 k.1.0 k.1.1.0 k.1.1.1.0))
                ∙ take-frame n rest _ fits e
                ∙ sym (append_assoc (frame (take n rest)) _ tail),
            (omega (arith, length-take n rest), bounded),
            ends,
          )
    ]

-- Whatever bytes the socket delivers and whichever writes fail, what CopyFromSocketToTap has written
-- to the interface, framed, is the beginning of the bytes delivered, no packet is larger than the
-- buffer, and the loop ends within its bound.
pub copy_accounts :
    (tap_ok : Bytes → Bool) (stream : Bytes)
    → All (λ b. b < 256) stream
    → let (written, end) = copy_from_socket_to_tap tap_ok stream in
      (rest : Bytes) × (stream ≡ frames written ++ rest)
      × All (λ p. length p ≤ buffer_size) written
      × (end ≢ unfinished)
unfolding copy_from_socket_to_tap Accounts
copy_accounts tap_ok stream h =
    copy_loop-Accounts (suc (length stream)) tap_ok stream (omega arith) h
