-- ===== src/Net/Accept.antt =====
-- linux_c++_6_4/nginx/net/ngx_c_socket_accept.cxx: a connection for a client that comes in.
use linux_c_study.Prelude.{ℕ, Bool, true, false, ◌==◌, if◌then◌else◌, some, pos, negsuc}
use Prim.Native.Nat.{bit_or}
use linux_c_study.Net.Conn.{wait_request_handler}
use linux_c_study.Net.Socket.{Socket, Server, update, ngx_get_connection, ngx_close_connection}
use linux_c_study.Net.Epoll.{epoll_ctl_add, epollin, epollrdhup, ngx_epoll_oper_event}

abbrev pub enosys : ℕ
enosys = 38

pub data AcceptResult : Type 0 where
  accepted : ℕ → AcceptResult
  accept_error : ℕ → AcceptResult

-- What the kernel answers: accept4() and accept(), setting a socket non-blocking, and epoll_ctl().
pub record Kernel : Type 0 where
  pub accept4 : AcceptResult
  pub accept : AcceptResult
  pub setnonblocking : Bool
  pub epoll_ctl : ℕ → Bool

abbrev pub set_handler : ℕ → ℕ → Socket → Socket
set_handler oldc p s = record s {
  conns = update s.conns p (record (s.conns p) {
    listening = (s.conns oldc).listening;
    rhandler = some wait_request_handler;
  });
}

-- The new connection is watched for input, or given back.
unfoldable pub watch_client : Kernel → ℕ → ℕ → Server → Server
unfolding ngx_epoll_oper_event ngx_close_connection
watch_client k oldc p s =
    let (socket', ret) =
      ngx_epoll_oper_event k.epoll_ctl epoll_ctl_add (bit_or epollin epollrdhup) 0 p
        (set_handler oldc p s.socket) in
    let t : Server = record s { socket = socket' } in
    elim ret [ pos n ↦ t | negsuc n ↦ ngx_close_connection p t ]

-- Behind a successful accept: the function's second half.
unfoldable pub take_client : Kernel → Bool → ℕ → ℕ → Server → Server
unfolding ngx_get_connection ngx_close_connection watch_client
take_client k use_accept4 oldc fd s =
    let (p, socket') = ngx_get_connection fd s.socket in
    let t : Server = record s { socket = socket' } in
    if use_accept4
    then watch_client k oldc p t
    else if k.setnonblocking
    then watch_client k oldc p t
    else ngx_close_connection p t

-- The round with accept().
unfoldable pub accept_plain : Kernel → ℕ → Server → AcceptResult → Server
unfolding take_client
accept_plain k oldc s (accepted fd) = take_client k false oldc fd s
accept_plain k oldc s (accept_error errno) = s

-- The round with accept4(); where the system lacks it, the loop goes on with accept(), for good.
unfoldable pub accept_first : Kernel → ℕ → Server → AcceptResult → Server × Bool
unfolding take_client accept_plain
accept_first k oldc s (accepted fd) = (take_client k true oldc fd s, true)
accept_first k oldc s (accept_error errno) =
    if errno == enosys then (accept_plain k oldc s k.accept, false) else (s, true)

-- The state, and the static `use_accept4` behind the call.
unfoldable pub ngx_event_accept : Kernel → Bool → ℕ → Server → Server × Bool
unfolding accept_first accept_plain
ngx_event_accept k use_accept4 oldc s =
    if use_accept4 then accept_first k oldc s k.accept4 else (accept_plain k oldc s k.accept, false)
