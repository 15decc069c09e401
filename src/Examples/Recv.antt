-- ===== src/Examples/Recv.antt =====
-- A client sends a registration of one byte and an empty log-in, cut in the middle of header and body.
use mathlib.Core.List.{flatten}
use linux_c_study.Prelude.{ℕ, ◌≡◌, refl, List, [], ◌∷◌, ◌++◌, some, map, arith, bytes_from, splice}
use linux_c_study.Net.Conn.{get_one_to_use}
use linux_c_study.Net.Socket.{new_connection}
use linux_c_study.Net.Recv.{Rx, receive}
use linux_c_study.Net.Recv.Stream.{packages}
use linux_c_study.Net.Recv.Whole.{AllWhole}
use linux_c_study.Net.Recv.Holds.{Holds, queued}
use linux_c_study.Net.Recv.Package.{Got}
use linux_c_study.Net.Recv.Refine.{Fits, receive_all, receive_all-Got, get_one_to_use-Holds}
use linux_c_study.Net.Recv.Delivery.{receive_all-delivers, receive_all-AllWhole}
use linux_c_study.Threads.{init}

abbrev fresh_rx : Rx
fresh_rx = record {
  conn = get_one_to_use new_connection;
  memory = record { next = 0; live = [] };
  pool = init 4;
}

abbrev zeros : ℕ → ℕ
zeros i = 0

abbrev one_byte_package : List ℕ
one_byte_package = 0 ∷ 9 ∷ 0 ∷ 5 ∷ 1 ∷ 2 ∷ 3 ∷ 4 ∷ 42 ∷ []

abbrev empty_package : List ℕ
empty_package = 0 ∷ 8 ∷ 0 ∷ 6 ∷ 0 ∷ 0 ∷ 0 ∷ 0 ∷ []

abbrev two_packages : List (List ℕ)
two_packages = one_byte_package ∷ empty_package ∷ []

abbrev in_pieces : List (List ℕ)
in_pieces = (0 ∷ 9 ∷ 0 ∷ []) ∷ (5 ∷ 1 ∷ 2 ∷ 3 ∷ 4 ∷ []) ∷ (42 ∷ []) ∷ empty_package ∷ []

waits : Holds 7 fresh_rx.conn []
unfolding new_connection bytes_from
waits = get_one_to_use-Holds 7 new_connection refl

in_pieces-Fits : Fits 7 zeros 100 fresh_rx in_pieces
unfolding Fits receive get_one_to_use new_connection init splice
in_pieces-Fits = (omega arith, (omega arith, (omega arith, (omega arith, tt))))

two_packages-AllWhole : AllWhole two_packages
two_packages-AllWhole = (
  record { announced = refl; at_least = omega arith; at_most = omega arith },
  (record { announced = refl; at_least = omega arith; at_most = omega arith }, tt),
)

in_pieces-bytes : flatten in_pieces ≡ flatten two_packages
unfolding flatten
in_pieces-bytes = refl

receive_all-Got_example :
    Got 7 fresh_rx (receive_all 7 zeros 100 fresh_rx in_pieces) (packages [] (flatten in_pieces))
receive_all-Got_example = receive_all-Got 7 zeros 100 fresh_rx [] in_pieces waits in_pieces-Fits

receive_all-delivers_example :
    (queued (receive_all 7 zeros 100 fresh_rx in_pieces).pool
      ≡ queued fresh_rx.pool ++ map some two_packages)
    × Holds 7 (receive_all 7 zeros 100 fresh_rx in_pieces).conn []
receive_all-delivers_example =
    receive_all-delivers 7 zeros 100 fresh_rx two_packages in_pieces waits in_pieces-Fits
      two_packages-AllWhole in_pieces-bytes

receive_all-AllWhole_example :
    (pkgs : List (List ℕ)) × AllWhole pkgs
    × (queued (receive_all 7 zeros 100 fresh_rx in_pieces).pool
        ≡ queued fresh_rx.pool ++ map some pkgs)
receive_all-AllWhole_example =
    receive_all-AllWhole 7 zeros 100 fresh_rx [] in_pieces waits in_pieces-Fits
