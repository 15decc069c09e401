-- ===== src/Examples/Server.antt =====
-- A worker with two connections and four pool threads.
use linux_c_study.Prelude.{ℕ, ◌<◌, ◌≡◌, refl, [], ◌∷◌, ◌++◌, arith, true, select, length}
use linux_c_study.Net.Socket.{
  Server, due, ngx_get_connection, recycle_due, in_recy_connect_queue, initconnection,
}
use linux_c_study.Net.Socket.Invariant.{IsValid, InUse}
use linux_c_study.Net.Socket.Lifecycle.{
  start, no_connections, connect, Reach, here, next, Reach-IsValid, Taken, ngx_get_connection-Taken,
}
use linux_c_study.Net.Socket.Recycling.{neg, recycle_due-select}
use linux_c_study.Net.Request.{received}
use linux_c_study.Net.Accept.{Kernel, accepted}
use linux_c_study.Net.Events.{Event, process_all}
use linux_c_study.Net.Events.Pool.{AllInUse, NotFor, OneEach, process_all-IsValid}

abbrev worker : Server
worker = start 2 60 4

-- A client came.
abbrev busy : Server
busy = record worker { socket = (ngx_get_connection 5 worker.socket).1 }

one_client : Reach worker busy
one_client = next here (connect 5)

client-InUse : InUse busy.socket 0
unfolding start no_connections initconnection ngx_get_connection
client-InUse = record { pooled = refl; not_free = refl; not_waiting = refl }

Reach-IsValid_example : IsValid busy.socket
Reach-IsValid_example = Reach-IsValid 2 60 4 one_client

ngx_get_connection-Taken_example :
    Taken 6 busy.socket (ngx_get_connection 6 busy.socket).0 (ngx_get_connection 6 busy.socket).1
ngx_get_connection-Taken_example =
    ngx_get_connection-Taken 6 busy.socket (Reach-IsValid 2 60 4 one_client)

-- Two clients left, at the times 100 and 150.
abbrev left : Server
left = record worker {
  socket =
      in_recy_connect_queue 150 1
        (in_recy_connect_queue 100 0 (ngx_get_connection 6 busy.socket).1);
}

left-length : length left.socket.recyconnection_list < 3
unfolding start in_recy_connect_queue ngx_get_connection
left-length = omega arith

recycle_due-select_example :
    ((recycle_due 3 0 170 left).socket.recyconnection_list
      ≡ select (neg (due 0 170 left.socket)) left.socket.recyconnection_list)
    × ((recycle_due 3 0 170 left).socket.freeconnection_list
        ≡ left.socket.freeconnection_list
          ++ select (due 0 170 left.socket) left.socket.recyconnection_list)
recycle_due-select_example = recycle_due-select 3 0 170 left left-length

abbrev kernel : Kernel
kernel = record {
  accept4 = accepted 9;
  accept = accepted 9;
  setnonblocking = true;
  epoll_ctl = λ events. true;
}

abbrev bytes_came : Event
bytes_came = record { ptr = 0; revents = 1; kernel = kernel; recv = received (0 ∷ 9 ∷ []) }

abbrev zeros : ℕ → ℕ
zeros i = 0

bytes_came-AllInUse : AllInUse busy.socket (bytes_came ∷ [])
unfolding AllInUse
bytes_came-AllInUse = (client-InUse, tt)

bytes_came-OneEach : OneEach (bytes_came ∷ [])
unfolding OneEach NotFor
bytes_came-OneEach = (tt, tt)

process_all-IsValid_example :
    IsValid
      (process_all zeros 100
        (bytes_came ∷ [])
        (record { server = busy; use_accept4 = true })).server.socket
process_all-IsValid_example =
    process_all-IsValid zeros 100 (bytes_came ∷ []) (record { server = busy; use_accept4 = true })
      (Reach-IsValid 2 60 4 one_client) bytes_came-AllInUse bytes_came-OneEach
