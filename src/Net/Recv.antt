-- ===== src/Net/Recv.antt =====
-- linux_c++_6_4/nginx/net/ngx_c_socket_request.cxx: receiving a package, ngx_wait_request_handler and
-- the functions that it calls, as they act on one connection.
pub mod Stream
pub mod Whole
pub mod Holds
pub mod Package
pub mod Steps
pub mod Refine
pub mod Delivery
use linux_c_study.Prelude.{
  ℕ, ◌+◌, ◌-◌, List, Option, none, some, false, ltb, ◌==◌, if◌then◌else◌, length, take, drop,
  splice,
}
use linux_c_study.Net.Memory.{Memory, alloc_memory, contents}
use linux_c_study.Net.Conn.{
  PkgState, pkg_hd_init, pkg_hd_recving, pkg_bd_init, pkg_bd_recving, RecvPtr, null, in_head,
  in_mem, Msg, Connection, pkg_max_length, len_pkg_header, len_msg_header, pkg_len,
}
use linux_c_study.Threads.{ThreadPool, in_msg_recv_queue_and_signal}

-- What the handler of one connection reads and writes.
pub record Rx : Type 0 where
  pub conn : Connection
  pub memory : Memory
  pub pool : ThreadPool

-- `p + n` on a pointer into a receive buffer.
unfoldable pub advance : RecvPtr → ℕ → RecvPtr
advance null n = null
advance (in_head k) n = in_head (k + n)
advance (in_mem k) n = in_mem (k + n)

abbrev pub write_msg : Option Msg → ℕ → List ℕ → Option Msg
write_msg none k bytes = none
write_msg (some b) k bytes = some (record b { pkg = splice b.pkg k bytes })

-- `recv` puts the bytes where the pointer points.
unfoldable pub recv_into : RecvPtr → List ℕ → Connection → Connection
recv_into null bytes c = c
recv_into (in_head k) bytes c = record c { data_head_info = splice c.data_head_info k bytes }
recv_into (in_mem k) bytes c = record c {
  precv_mem_pointer = write_msg c.precv_mem_pointer k bytes;
}

-- Ready for the next package header.
unfoldable pub expect_header : Connection → Connection
expect_header c = record c {
  cur_stat = pkg_hd_init;
  precvbuf = in_head 0;
  irecvlen = len_pkg_header;
}

unfoldable pub ngx_wait_request_handler_proc_plast : ℕ → Rx → Rx
unfolding expect_header
ngx_wait_request_handler_proc_plast now s = record s {
  conn = expect_header (record (s.conn) { precv_mem_pointer = none });
  pool = in_msg_recv_queue_and_signal now s.conn.precv_mem_pointer s.pool;
}

-- The block for a package of `n` bytes: message header and package header are filled in, the body is not.
unfoldable pub new_msg : ℕ → ℕ → (ℕ → ℕ) → ℕ → Connection → Msg
new_msg me n fill addr c = record {
  addr = addr;
  p_conn = me;
  i_currsequence = c.i_currsequence;
  pkg =
      splice (drop len_msg_header (contents (len_msg_header + n) false fill)) 0
        (take len_pkg_header c.data_head_info);
}

-- `me` is the address of the connection, `fill` what fresh memory holds.
unfoldable pub ngx_wait_request_handler_proc_p1 : ℕ → (ℕ → ℕ) → ℕ → Rx → Rx
unfolding expect_header ngx_wait_request_handler_proc_plast new_msg alloc_memory
ngx_wait_request_handler_proc_p1 me fill now s =
    let e_pkg_len = pkg_len s.conn.data_head_info in
    let (addr, memory') = alloc_memory s.memory in
    let conn' : Connection = record (s.conn) {
      precv_mem_pointer = some (new_msg me e_pkg_len fill addr s.conn);
    } in
    if ltb e_pkg_len len_pkg_header
    then record s { conn = expect_header s.conn }
    else if ltb (pkg_max_length - 1000) e_pkg_len
    then record s { conn = expect_header s.conn }
    else if e_pkg_len == len_pkg_header
    then ngx_wait_request_handler_proc_plast now (record s { conn = conn'; memory = memory' })
    else record s {
      conn = record conn' {
        cur_stat = pkg_bd_init;
        precvbuf = in_mem len_pkg_header;
        irecvlen = e_pkg_len - len_pkg_header;
      };
      memory = memory';
    }

-- Less came than was asked for: the rest goes behind it.
unfoldable pub keep_receiving : PkgState → ℕ → Connection → Connection
unfolding advance
keep_receiving st reco c = record c {
  cur_stat = st;
  precvbuf = advance c.precvbuf reco;
  irecvlen = c.irecvlen - reco;
}

-- The branches of ngx_wait_request_handler on the receive state, `reco` bytes having come.
unfoldable pub on_received : PkgState → ℕ → (ℕ → ℕ) → ℕ → ℕ → Rx → Rx
unfolding ngx_wait_request_handler_proc_p1 keep_receiving
on_received pkg_hd_init me fill now reco s =
    if reco == len_pkg_header
    then ngx_wait_request_handler_proc_p1 me fill now s
    else record s { conn = keep_receiving pkg_hd_recving reco s.conn }
on_received pkg_hd_recving me fill now reco s =
    if s.conn.irecvlen == reco
    then ngx_wait_request_handler_proc_p1 me fill now s
    else record s { conn = keep_receiving pkg_hd_recving reco s.conn }
on_received pkg_bd_init me fill now reco s =
    if reco == s.conn.irecvlen
    then ngx_wait_request_handler_proc_plast now s
    else record s { conn = keep_receiving pkg_bd_recving reco s.conn }
on_received pkg_bd_recving me fill now reco s =
    if s.conn.irecvlen == reco
    then ngx_wait_request_handler_proc_plast now s
    else record s { conn = keep_receiving pkg_bd_recving reco s.conn }

-- The handler where recv() brought some bytes.
unfoldable pub receive : ℕ → (ℕ → ℕ) → ℕ → List ℕ → Rx → Rx
unfolding recv_into on_received
receive me fill now bytes s =
    on_received s.conn.cur_stat me fill now (length bytes)
      (record s { conn = recv_into s.conn.precvbuf bytes s.conn })
