-- ===== src/Net/Events.antt =====
-- linux_c++_6_4/nginx/net/ngx_c_socket.cxx: one call of ngx_epoll_process_events.
pub mod Kept
pub mod Pool
use Prim.Native.Nat.{bit_and}
use linux_c_study.Prelude.{
  ℕ, List, [], ◌∷◌, Option, none, some, Bool, true, false, ◌==◌, if◌then◌else◌, ℤ, pos, negsuc,
}
use linux_c_study.Net.Conn.{Handler, event_accept, wait_request_handler}
use linux_c_study.Net.Socket.{Server}
use linux_c_study.Net.Request.{RecvResult, ngx_wait_request_handler, eintr}
use linux_c_study.Net.Accept.{Kernel, ngx_event_accept}
use linux_c_study.Net.Epoll.{epollin}

-- An event that epoll_wait() reports: the connection's address, the flags, and what the kernel answers
-- to the system calls of the handler.
pub record Event : Type 0 where
  pub ptr : ℕ
  pub revents : ℕ
  pub kernel : Kernel
  pub recv : RecvResult

-- The server and the static `use_accept4` of ngx_event_accept.
pub record Loop : Type 0 where
  pub server : Server
  pub use_accept4 : Bool

unfoldable pub run_handler : (ℕ → ℕ) → ℕ → Event → Option Handler → Loop → Loop
unfolding ngx_event_accept ngx_wait_request_handler
run_handler fill now e none l = l
run_handler fill now e (some event_accept) l =
    let (server', use_accept4') = ngx_event_accept e.kernel l.use_accept4 e.ptr l.server in
    record { server = server'; use_accept4 = use_accept4' }
run_handler fill now e (some wait_request_handler) l = record l {
  server = ngx_wait_request_handler fill now e.recv e.ptr l.server;
}

unfoldable pub process_event : (ℕ → ℕ) → ℕ → Event → Loop → Loop
unfolding run_handler
process_event fill now e l =
    if bit_and e.revents epollin == 0
    then l
    else run_handler fill now e ((l.server.socket.conns e.ptr).rhandler) l

unfoldable pub process_all : (ℕ → ℕ) → ℕ → List Event → Loop → Loop
unfolding process_event
process_all fill now [] l = l
process_all fill now (e ∷ es) l = process_all fill now es (process_event fill now e l)

-- What epoll_wait() returned: -1 with errno, or its events. `timer` is its time limit, -1 for none.
pub data WaitResult : Type 0 where
  wait_error : ℕ → WaitResult
  events : List Event → WaitResult

abbrev forever : ℤ → Bool
forever (pos n) = false
forever (negsuc n) = n == 0

unfoldable pub ngx_epoll_process_events : (ℕ → ℕ) → ℕ → ℤ → WaitResult → Loop → Loop × ℕ
unfolding process_all
ngx_epoll_process_events fill now timer (wait_error errno) l = (l, if errno == eintr then 1 else 0)
ngx_epoll_process_events fill now timer (events []) l = (l, if forever timer then 0 else 1)
ngx_epoll_process_events fill now timer (events (e ∷ es)) l = (process_all fill now (e ∷ es) l, 1)
