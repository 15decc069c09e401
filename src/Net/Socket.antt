-- ===== src/Net/Socket.antt =====
-- linux_c++_6_4/nginx/net/ngx_c_socket_conn.cxx: the pool of connections and their delayed recycling.
-- `conns` is the memory in which the connections lie, by address; `next_conn` the next address that
-- AllocMemory gives to a connection; `closed` the descriptors that were closed, the latest first.
pub mod Invariant
pub mod Lifecycle
pub mod Recycling
use linux_c_study.Prelude.{
  ℕ, zero, suc, ◌+◌, ◌-◌, ◌%◌, ◌^◌, List, [], ◌∷◌, ◌++◌, Option, none, some, Bool, true, false,
  ◌&&◌, not, ltb, ◌==◌, if◌then◌else◌, length, inc32, dec32, inc64, pos32,
}
use linux_c_study.Net.Memory.{Memory, remove, contents}
use linux_c_study.Net.Conn.{
  PkgState, pkg_hd_init, RecvPtr, null, Connection, data_bufsize, get_one_to_use, put_one_to_free,
}
use linux_c_study.Threads.{ThreadPool}

pub record Socket : Type 0 where
  pub conns : ℕ → Connection
  pub next_conn : ℕ
  pub worker_connections : ℕ
  pub connection_list : List ℕ
  pub freeconnection_list : List ℕ
  pub total_connection_n : ℕ
  pub free_connection_n : ℕ
  pub recyconnection_list : List ℕ
  pub totol_recyconnection_n : ℕ
  pub recy_connection_wait_time : ℕ
  pub closed : List ℕ

-- The state of a worker process: g_socket, g_threadpool and the memory behind CMemory.
pub record Server : Type 0 where
  pub socket : Socket
  pub memory : Memory
  pub pool : ThreadPool

-- A write through a connection pointer.
abbrev pub update : (ℕ → Connection) → ℕ → Connection → ℕ → Connection
update conns p c q = if p == q then c else conns q

-- AllocMemory(sizeof(ngx_connection_t), true) and the constructor.
-- The memory of the object itself, which AllocMemory gives and clearconnection frees, is an address of the connections'
-- own, below `next_conn`; it is not among the addresses of Memory, which are those of messages and answers.
unfoldable pub new_connection : Connection
unfolding contents
new_connection = record {
  fd = 0;
  listening = none;
  i_currsequence = 0;
  rhandler = none;
  events = 0;
  cur_stat = pkg_hd_init;
  data_head_info = contents data_bufsize true (λ i. 0);
  precvbuf = null;
  irecvlen = 0;
  precv_mem_pointer = none;
  i_throwsend_count = 0;
  psend_mem_pointer = none;
  in_recy_time = 0;
}

-- One round of the loop of initconnection.
unfoldable pub add_connection : Socket → Socket
unfolding new_connection get_one_to_use
add_connection s = record s {
  conns = update s.conns s.next_conn (get_one_to_use new_connection);
  next_conn = s.next_conn + 1;
  connection_list = s.connection_list ++ s.next_conn ∷ [];
  freeconnection_list = s.freeconnection_list ++ s.next_conn ∷ [];
}

unfoldable pub add_connections : ℕ → Socket → Socket
unfolding add_connection
add_connections zero s = s
add_connections (suc n) s = add_connections n (add_connection s)

unfoldable pub initconnection : Socket → Socket
unfolding add_connections
initconnection s =
    let t = add_connections s.worker_connections s in
    record t {
      total_connection_n = length t.connection_list % 2 ^ 32;
      free_connection_n = length t.connection_list % 2 ^ 32;
    }

-- A free connection, or a new one: its address and the pool.
unfoldable pub take_connection : List ℕ → ℕ → Socket → ℕ × Socket
unfolding get_one_to_use new_connection
take_connection (p ∷ rest) isock s = (
  p,
  record s {
    conns = update s.conns p (record (get_one_to_use (s.conns p)) { fd = isock });
    freeconnection_list = rest;
    free_connection_n = dec32 s.free_connection_n;
  },
)
take_connection [] isock s = (
  s.next_conn,
  record s {
    conns = update s.conns s.next_conn (record (get_one_to_use new_connection) { fd = isock });
    next_conn = s.next_conn + 1;
    connection_list = s.connection_list ++ s.next_conn ∷ [];
    total_connection_n = inc32 s.total_connection_n;
  },
)

unfoldable pub ngx_get_connection : ℕ → Socket → ℕ × Socket
unfolding take_connection
ngx_get_connection isock s = take_connection s.freeconnection_list isock s

unfoldable pub ngx_free_connection : ℕ → Server → Server
unfolding put_one_to_free
ngx_free_connection p s =
    let (c, memory') = put_one_to_free (s.socket.conns p) s.memory in
    record s {
      socket = record (s.socket) {
        conns = update s.socket.conns p c;
        freeconnection_list = s.socket.freeconnection_list ++ p ∷ [];
        free_connection_n = inc32 s.socket.free_connection_n;
      };
      memory = memory';
    }

unfoldable pub in_recy_connect_queue : ℕ → ℕ → Socket → Socket
in_recy_connect_queue now p s = record s {
  conns = update s.conns p (record (s.conns p) {
    in_recy_time = now;
    i_currsequence = inc64 ((s.conns p).i_currsequence);
  });
  recyconnection_list = s.recyconnection_list ++ p ∷ [];
  totol_recyconnection_n = inc32 s.totol_recyconnection_n;
}

-- `close(fd)`; whether it succeeds only decides what is logged.
unfoldable pub close_fd : ℕ → Socket → Socket
close_fd fd s = record s { closed = fd ∷ s.closed }

unfoldable pub ngx_close_connection : ℕ → Server → Server
unfolding ngx_free_connection close_fd
ngx_close_connection p s =
    let t = ngx_free_connection p s in
    record t { socket = close_fd ((t.socket.conns p).fd) t.socket }

-- Whether the recycling thread frees a connection that waits: `stop` is g_stopEvent.
unfoldable pub due : ℕ → ℕ → Socket → ℕ → Bool
due stop now s p =
    not (ltb now ((s.conns p).in_recy_time + s.recy_connection_wait_time) && (stop == 0))

unfoldable pub first_due : (ℕ → Bool) → List ℕ → Option ℕ
first_due test [] = none
first_due test (p ∷ ps) = if test p then some p else first_due test ps

unfoldable pub leave_recy_queue : ℕ → Server → Server
unfolding remove
leave_recy_queue p s = record s {
  socket = record (s.socket) {
    totol_recyconnection_n = dec32 s.socket.totol_recyconnection_n;
    recyconnection_list = remove p s.socket.recyconnection_list;
  };
}

unfoldable pub recycle : ℕ → Server → Server
unfolding ngx_free_connection leave_recy_queue
recycle p s = ngx_free_connection p (leave_recy_queue p s)

-- The loop behind lblRRTD: it begins anew after each connection that it frees.
unfoldable pub recycle_due : ℕ → ℕ → ℕ → Server → Server
unfolding recycle first_due due
recycle_due zero stop now s = s
recycle_due (suc fuel) stop now s =
    elim (first_due (due stop now s.socket) s.socket.recyconnection_list) [
      | none ↦ s
      | some p ↦ recycle_due fuel stop now (recycle p s)
    ]

-- The loop behind lblRRTD2: every connection that waits.
unfoldable pub recycle_all : List ℕ → Server → Server
unfolding recycle
recycle_all [] s = s
recycle_all (p ∷ ps) s = recycle_all ps (recycle p s)

-- What the thread does in every round, under `m_totol_recyconnection_n > 0`.
unfoldable pub free_due_round : ℕ → ℕ → Server → Server
unfolding recycle_due
free_due_round stop now s =
    if pos32 s.socket.totol_recyconnection_n
    then recycle_due (suc (length s.socket.recyconnection_list)) stop now s
    else s

-- What it does before it ends.
unfoldable pub free_all_round : Server → Server
unfolding recycle_all
free_all_round s =
    if pos32 s.socket.totol_recyconnection_n then recycle_all s.socket.recyconnection_list s else s

-- One round of ServerRecyConnectionThread behind its sleep, and whether the thread ends with it.
unfoldable pub recy_connection_round : ℕ → ℕ → Server → Server × Bool
unfolding free_due_round free_all_round
recy_connection_round stop now s =
    let t = free_due_round stop now s in if stop == 1 then (free_all_round t, true) else (t, false)

-- The connections are destroyed; what they point to is not freed.
unfoldable pub clearconnection : Socket → Socket
clearconnection s = record s { connection_list = [] }
