-- ===== src/Net/Conn.antt =====
-- linux_c++_6_4/nginx/_include/ngx_c_socket.h and ngx_comm.h: the structures that describe a connection
-- and a message; ngx_c_socket_conn.cxx: what a connection does when it is taken and given back.
use linux_c_study.Prelude.{ℕ, ◌+◌, ◌*◌, List, [], ◌∷◌, Option, none, some, inc64}
use linux_c_study.Net.Memory.{Memory, free_memory}

abbrev pub pkg_max_length : ℕ
pkg_max_length = 30000

abbrev pub data_bufsize : ℕ
data_bufsize = 20

-- sizeof(COMM_PKG_HEADER), with one-byte packing: pkgLen, msgCode, crc32.
abbrev pub len_pkg_header : ℕ
len_pkg_header = 8

-- sizeof(STRUC_MSG_HEADER) on a 64-bit machine: a pointer and a uint64_t.
abbrev pub len_msg_header : ℕ
len_msg_header = 16

-- The receive states, in the order of their numbers.
pub data PkgState : Type 0 where
  pkg_hd_init pkg_hd_recving pkg_bd_init pkg_bd_recving : PkgState

-- Where `precvbuf` points: nowhere, `dataHeadInfo + k`, or into the message block, k bytes behind its
-- message header.
pub data RecvPtr : Type 0 where
  null : RecvPtr
  in_head : ℕ → RecvPtr
  in_mem : ℕ → RecvPtr

-- A block that holds a message: the message header (connection and sequence number), then the package,
-- header and body.
pub record Msg : Type 0 where
  pub addr : ℕ
  pub p_conn : ℕ
  pub i_currsequence : ℕ
  pub pkg : List ℕ

pub data Handler : Type 0 where
  event_accept wait_request_handler : Handler

pub record Connection : Type 0 where
  pub fd : ℕ
  pub listening : Option ℕ
  pub i_currsequence : ℕ
  pub rhandler : Option Handler
  pub events : ℕ
  pub cur_stat : PkgState
  pub data_head_info : List ℕ
  pub precvbuf : RecvPtr
  pub irecvlen : ℕ
  pub precv_mem_pointer : Option Msg
  pub i_throwsend_count : ℕ
  pub psend_mem_pointer : Option Msg
  pub in_recy_time : ℕ

-- The first two bytes of a package, ntohs(pkgLen).
abbrev pub pkg_len : List ℕ → ℕ
pkg_len [] = 0
pkg_len (a ∷ []) = 0
pkg_len (a ∷ b ∷ rest) = a * 256 + b

unfoldable pub get_one_to_use : Connection → Connection
get_one_to_use c = record c {
  i_currsequence = inc64 c.i_currsequence;
  cur_stat = pkg_hd_init;
  precvbuf = in_head 0;
  irecvlen = len_pkg_header;
  precv_mem_pointer = none;
  i_throwsend_count = 0;
  psend_mem_pointer = none;
  events = 0;
}

-- `if (p != NULL) FreeMemory(p)`.
unfoldable pub free_msg : Option Msg → Memory → Memory
unfolding free_memory
free_msg none m = m
free_msg (some b) m = free_memory b.addr m

unfoldable pub put_one_to_free : Connection → Memory → Connection × Memory
unfolding free_msg
put_one_to_free c m = (
  record c {
    i_currsequence = inc64 c.i_currsequence;
    precv_mem_pointer = none;
    psend_mem_pointer = none;
    i_throwsend_count = 0;
  },
  free_msg c.psend_mem_pointer (free_msg c.precv_mem_pointer m),
)
