-- ===== src/Netutil/Examples.antt =====
-- Tests and instances for internal/netutil/copy.go.
use hpktainer.Base.{◌≡◌, refl, true, none, some, List, [], ◌∷◌, Bytes, arith}
use hpktainer.Netutil.{
  set_conn, copy_from_tap_to_socket, sent, closed, Holder, Round, frame, forward_tap_to_socket,
  copy_from_socket_to_tap, read_length, packet_too_large, uint32,
}
use hpktainer.Netutil.Session.{sent_to, active_packets, Sound, copy-forward}

abbrev packets : List Bytes
packets = (1 ∷ 2 ∷ []) ∷ [] ∷ (9 ∷ []) ∷ []

framed : frame (1 ∷ 2 ∷ []) ≡ 0 ∷ 0 ∷ 0 ∷ 2 ∷ 1 ∷ 2 ∷ []
unfolding frame
framed = refl

too_large :
    copy_from_socket_to_tap (λ x. true) (0 ∷ 1 ∷ 0 ∷ 1 ∷ 7 ∷ []) ≡ ([], packet_too_large 65537)
unfolding copy_from_socket_to_tap uint32
too_large = refl

abbrev holder : Holder
holder = record { conn = some 4 }

abbrev rounds : List Round
rounds =
    record { read = some (1 ∷ 2 ∷ []); holder = holder; write_error = none }
    ∷ record { read = some (3 ∷ []); holder = record { conn = none }; write_error = none }
    ∷ record { read = some (4 ∷ []); holder = holder; write_error = none }
    ∷ []

rounds-Sound : Sound rounds
rounds-Sound = ((refl, omega arith), ((refl, omega arith), ((refl, omega arith), tt)))

copy-forward_example :
    copy_from_socket_to_tap (λ x. true) (sent_to 4 (forward_tap_to_socket rounds).0)
    ≡ (active_packets 4 rounds, read_length)
copy-forward_example = copy-forward 4 rounds rounds-Sound

one_socket :
    copy_from_tap_to_socket 7 ((some (9 ∷ []), none) ∷ (some (8 ∷ []), some 3) ∷ (none, none) ∷ [])
    ≡ (sent 7 (0 ∷ 0 ∷ 0 ∷ 1 ∷ 9 ∷ []) ∷ sent 7 (0 ∷ 0 ∷ 0 ∷ []) ∷ closed 7 ∷ [], true)
unfolding copy_from_tap_to_socket forward_tap_to_socket frame set_conn
one_socket = refl
