-- ===== src/Examples/Worker.antt =====
-- A worker with one listening socket and two connections, from the opening of the socket on.
use linux_c_study.Prelude.{
  ℕ, ◌+◌, ◌++◌, subst, ℤ, pos, splice, ◌≡◌, ◌&&◌, refl, List, [], ◌∷◌, none, some, true, count,
  length,
}
use linux_c_study.Net.Socket.{Socket, initconnection, ngx_get_connection}
use linux_c_study.Net.Socket.Invariant.{InUse}
use linux_c_study.Net.Socket.Lifecycle.{no_connections}
use linux_c_study.Net.Conn.{Msg}
use linux_c_study.Net.Request.{received}
use linux_c_study.Net.Accept.{Kernel, accepted}
use linux_c_study.Net.Events.{Event, Loop, process_event}
use linux_c_study.Net.Listen.{
  Listening, Numbers, SocketCalls, rounds, listen_port, ngx_open_listening_sockets,
}
use linux_c_study.Net.Listen.Tracked.{none_yet, Listens, open_listening-Listens}
use linux_c_study.Net.Start.{ngx_epoll_init}
use linux_c_study.Net.Start.Listeners.{all_taken, Outcome, epoll_init-Outcome, watch}
use linux_c_study.Threads.{in_msg_recv_queue_and_signal, init}
use linux_c_study.Worker.{
  Worker, taken, check_job, pop, on_server, Reach, here, next, event, take, check,
}
use linux_c_study.Worker.Rounds.{Sound}
use linux_c_study.Net.Subproc.{SubprocCalls}
use linux_c_study.Worker.Init.{
  StartCalls, Began, ngx_worker_process_init, all_created, all_initialised,
  worker_process_init-Began,
}
use linux_c_study.Worker.Listening.{AllListen, Reach-AllListen}
use linux_c_study.Worker.Turns.{at_start, begin, replies, Reach-Sound}
use linux_c_study.Worker.Finish.{hand_blocks}

-- The first socket gets the descriptor 3.
abbrev all_well : ℕ → SocketCalls
all_well i = record {
  socket = some (3 + i);
  setsockopt = true;
  ioctl = true;
  bind = λ port. true;
  listen = true;
}

abbrev two_digits : List ℕ → ℤ
two_digits s = pos 80

open_listening-Listens_example :
    let (t, ok) = ngx_open_listening_sockets all_well two_digits [] (pos 2) (none_yet (0 ∷ [])) in
    Listens (listen_port two_digits []) (rounds (pos 2)) (0 ∷ []) t ok
open_listening-Listens_example = open_listening-Listens all_well two_digits [] (pos 2) (0 ∷ [])

abbrev port_80 : List Listening
port_80 = record { port = pos 80; fd = 3; connection = none } ∷ []

epoll_init-Outcome_example :
    Outcome
      (initconnection (no_connections 2 60))
      0
      port_80
      (true && all_taken (λ fd events. true) port_80)
      (ngx_epoll_init true (λ fd events. true) port_80 (no_connections 2 60))
epoll_init-Outcome_example = epoll_init-Outcome true (λ fd events. true) port_80 2 60

abbrev listening : Socket
listening = watch 0 0 (ngx_get_connection 3 (initconnection (no_connections 2 60))).1

abbrev port_80_at_0 : List Listening
port_80_at_0 = record { port = pos 80; fd = 3; connection = some 0 } ∷ []

starts :
    ngx_epoll_init true (λ fd events. true) port_80 (no_connections 2 60)
    ≡ some (port_80_at_0, listening)
unfolding ngx_epoll_init no_connections
starts = refl

abbrev kernel : Kernel
kernel = record {
  accept4 = accepted 9;
  accept = accepted 9;
  setnonblocking = true;
  epoll_ctl = λ events. true;
}

-- A client comes, and sends a package that is a header.
abbrev comes : Event
comes = record { ptr = 0; revents = 1; kernel = kernel; recv = received [] }

abbrev sends : Event
sends = record {
  ptr = 1;
  revents = 1;
  kernel = kernel;
  recv = received (0 ∷ 8 ∷ 0 ∷ 5 ∷ 0 ∷ 0 ∷ 0 ∷ 0 ∷ []);
}

abbrev zeros : ℕ → ℕ
zeros i = 0

listener-InUse : InUse listening 0
unfolding initconnection no_connections ngx_get_connection
listener-InUse = record { pooled = refl; not_free = refl; not_waiting = refl }

abbrev with_client : Loop
with_client = process_event zeros 100 comes (at_start 4 listening)

client-InUse : InUse with_client.server.socket 1
unfolding initconnection no_connections ngx_get_connection process_event
client-InUse = record { pooled = refl; not_free = refl; not_waiting = refl }

abbrev with_message : Loop
with_message = process_event zeros 101 sends with_client

abbrev one_round : Reach (begin (at_start 4 listening)) (begin with_message)
one_round =
    next (next here (event zeros 100 comes listener-InUse)) (event zeros 101 sends client-InUse)

abbrev header_only : Msg
header_only = record {
  addr = 0;
  p_conn = 1;
  i_currsequence = 2;
  pkg = 0 ∷ 8 ∷ 0 ∷ 5 ∷ 0 ∷ 0 ∷ 0 ∷ 0 ∷ [];
}

-- The package waits in the queue.
queue : with_message.server.pool.msg_recv_queue ≡ some header_only ∷ []
unfolding initconnection no_connections ngx_get_connection process_event splice
    in_msg_recv_queue_and_signal init linux_c_study.Prelude.bytes_from
queue = refl

-- A pool thread takes it and checks it.
abbrev with_taken : Worker
with_taken = record {
  loop = on_server with_message (pop [] with_message.server);
  jobs = taken header_only ∷ [];
}

abbrev with_checked : Worker
with_checked = record with_taken {
  jobs = check_job with_message.server.socket.conns header_only ∷ [];
}

abbrev work_begins : Reach (begin (at_start 4 listening)) with_checked
work_begins = next (next one_round (take header_only [] queue)) (check [] [] header_only refl)

Reach-Sound_example :
    Sound (hand_blocks with_checked.jobs ++ replies work_begins) with_checked.loop.server
Reach-Sound_example =
    Reach-Sound true (λ fd events. true) port_80 port_80_at_0 2 60 4 listening starts work_begins

Reach-AllListen_example : AllListen with_checked.loop.server.socket 0 port_80_at_0
Reach-AllListen_example =
    Reach-AllListen true (λ fd events. true) port_80 port_80_at_0 2 60 4 listening starts
      work_begins

abbrev subproc_well : SubprocCalls
subproc_well = record {
  init_send_mutex = true;
  init_connection_mutex = true;
  init_recyconn_mutex = true;
  sem_init = true;
  pthread_create = true;
}

abbrev start_well : StartCalls
start_well = record {
  pthread_create = λ i. true;
  subproc = subproc_well;
  epoll_create = true;
  epoll_ctl = λ fd events. true;
}

abbrev few : Numbers
few = record {
  worker_connections = pos 2;
  listen_port_count = pos 1;
  recy_connection_wait_time = pos 60;
}

worker_process_init-Began_example :
    Began
      (pos 4)
      few
      port_80
      (all_created start_well.pthread_create (rounds (pos 4)) 0
        && (all_initialised subproc_well && (true && all_taken start_well.epoll_ctl port_80)))
      (ngx_worker_process_init start_well (pos 4) few port_80)
worker_process_init-Began_example = worker_process_init-Began start_well (pos 4) few port_80
