-- ===== src/Examples/ReadTest.antt =====
-- The second server: a configuration file, and a pool of one connection.
use linux_c_study.Prelude.{
  ℕ, ◌<◌, ◌^◌, ◌≡◌, refl, List, [], ◌∷◌, ◌++◌, arith, some, if◌then◌else◌, ltb, length, map, select,
  pos,
}
use mathlib.Core.List.{flatten}
use linux_c_study.Net.Socket.{
  Server, due, initconnection, ngx_get_connection, in_recy_connect_queue, close_fd,
}
use linux_c_study.Net.Socket.Invariant.{InUse}
use linux_c_study.Net.Socket.Lifecycle.{start, no_connections}
use linux_c_study.Net.Socket.Recycling.{neg}
use linux_c_study.Printf.{number_digits}
use linux_c_study.ReadTest.Conf.{find, load, get_int, flag}
use linux_c_study.ReadTest.Conf.Lookup.{Entry, Clean, AllClean, render, latest, load-latest}
use linux_c_study.ReadTest.Conf.Numbers.{get_int-load}
use linux_c_study.ReadTest.Pool.{recy_connection_round}
use linux_c_study.ReadTest.Pool.Runs.{released, Reach, here, next, connect, disconnect, round}
use linux_c_study.ReadTest.Pool.Starved.{Drifted, Reach-Drifted, round-select}

-- n=80 and, behind it, n=443.
abbrev first_port : Entry
first_port = (b'n' ∷ [], number_digits 0 80)

abbrev second_port : Entry
second_port = (b'n' ∷ [], number_digits 0 443)

first-Clean : Clean first_port
unfolding flag number_digits
first-Clean = record {
  no_comment = refl;
  no_equals = (refl, tt);
  key_kept = (refl, tt);
  value_kept = (refl, (refl, tt));
  has_alnum = omega arith;
  line_fits = omega arith;
}

second-Clean : Clean second_port
unfolding flag number_digits
second-Clean = record {
  no_comment = refl;
  no_equals = (refl, tt);
  key_kept = (refl, tt);
  value_kept = (refl, (refl, (refl, tt)));
  has_alnum = omega arith;
  line_fits = omega arith;
}

abbrev both : List Entry
both = first_port ∷ second_port ∷ []

both-AllClean : AllClean both
both-AllClean = (first-Clean, (second-Clean, tt))

load-latest_example :
    find (b'n' ∷ []) (load (some (flatten (map render both))) []).0
    ≡ latest (b'n' ∷ []) both (find (b'n' ∷ []) [])
load-latest_example = load-latest (b'n' ∷ []) both [] both-AllClean

last_is_443 : latest (b'n' ∷ []) both (find (b'n' ∷ []) []) ≡ some (number_digits 0 443)
unfolding find
last_is_443 = refl

get_int-load_example : get_int (b'n' ∷ []) (load (some (flatten (map render both))) []).0 ≡ pos 443
get_int-load_example = get_int-load (b'n' ∷ []) both [] 443 both-AllClean (omega arith) last_is_443

-- A client comes and goes, its connection is released; then a second one does.
abbrev worker : Server
worker = start 1 60 1

abbrev come : ℕ → Server → Server
come isock s = record s { socket = (ngx_get_connection isock s.socket).1 }

abbrev go : ℕ → Server → Server
go now s = record s {
  socket = in_recy_connect_queue now 0 (close_fd ((s.socket.conns 0).fd) s.socket);
}

abbrev gone : Server
gone = go 100 (come 5 worker)

abbrev released_once : Server
released_once = (recy_connection_round 0 200 gone).0

abbrev gone_again : Server
gone_again = go 300 (come 6 released_once)

first-InUse : InUse (come 5 worker).socket 0
unfolding start no_connections initconnection ngx_get_connection
first-InUse = record { pooled = refl; not_free = refl; not_waiting = refl }

second-InUse : InUse (come 6 released_once).socket 0
unfolding start no_connections initconnection ngx_get_connection recy_connection_round
    in_recy_connect_queue close_fd
second-InUse = record { pooled = refl; not_free = refl; not_waiting = refl }

both_gone : Reach worker 1 gone_again
unfolding start no_connections initconnection ngx_get_connection recy_connection_round
    in_recy_connect_queue close_fd released
both_gone =
    next
      (next (next (next (next here (connect 5)) (disconnect 100 0 first-InUse)) (round 0 200))
        (connect 6))
      (disconnect 300 0 second-InUse)

Reach-Drifted_example : Drifted 1 gone_again.socket
Reach-Drifted_example = Reach-Drifted 1 60 1 both_gone

few_connections : length gone_again.socket.connection_list < 2 ^ 31
unfolding start no_connections initconnection ngx_get_connection recy_connection_round
    in_recy_connect_queue close_fd
few_connections = omega arith

-- The second connection waits for ever.
round-select_example :
    let test = due 0 1000 gone_again.socket in
    let q = gone_again.socket.recyconnection_list in
    let free = gone_again.socket.freeconnection_list in
    let works = ltb 1 (length gone_again.socket.connection_list) in
    let t = (recy_connection_round 0 1000 gone_again).0.socket in
    (t.recyconnection_list ≡ (if works then select (neg test) q else q))
    × (t.freeconnection_list ≡ (if works then free ++ select test q else free))
round-select_example =
    round-select 1 60 1 0 1000 both_gone few_connections (omega arith)
      (λ e. absurd (omega (arith, e)))

never_released : (recy_connection_round 0 1000 gone_again).0.socket.recyconnection_list ≡ 0 ∷ []
unfolding start no_connections initconnection ngx_get_connection recy_connection_round
    in_recy_connect_queue close_fd
never_released = refl
