-- ===== src/Net/Listen.antt =====
-- linux_c++_6_4/nginx/net/ngx_c_socket.cxx: the configured numbers, and the sockets on which the master
-- process listens before it starts its workers.
pub mod Tracked
pub mod Closing
use linux_c_study.Prelude.{
  ℕ, zero, suc, ◌+◌, ◌-◌, ◌%◌, ◌^◌, List, [], ◌∷◌, ◌++◌, Option, none, some, Bool, true, false, not,
  leb, if◌then◌else◌, length, get_elem?, ℤ, pos, negsuc,
}
use linux_c_study.Conf.{ConfItem, get_int_default}
use linux_c_study.Net.Memory.{remove}
use linux_c_study.Printf.{digits_loop, decimal}

-- ngx_listening_s; `connection` is the address of the connection that belongs to the socket.
pub record Listening : Type 0 where
  pub port : ℤ
  pub fd : ℕ
  pub connection : Option ℕ

-- The members that ReadConf sets.
pub record Numbers : Type 0 where
  pub worker_connections : ℤ
  pub listen_port_count : ℤ
  pub recy_connection_wait_time : ℤ

-- m_ListenSocketList, and the descriptors of the process that these functions opened and did not close.
pub record Listen : Type 0 where
  pub listen_socket_list : List Listening
  pub descriptors : List ℕ

-- What the constructor of CSocekt sets them to.
abbrev pub default_numbers : Numbers
default_numbers = record {
  worker_connections = pos 1;
  listen_port_count = pos 1;
  recy_connection_wait_time = pos 60;
}

abbrev pub worker_connections_name : List ℕ
worker_connections_name =
    b'w' ∷ b'o' ∷ b'r' ∷ b'k' ∷ b'e' ∷ b'r' ∷ b'_' ∷ b'c' ∷ b'o' ∷ b'n' ∷ b'n' ∷ b'e' ∷ b'c' ∷ b't'
    ∷ b'i' ∷ b'o' ∷ b'n' ∷ b's' ∷ []

abbrev pub listen_port_name : List ℕ
listen_port_name = b'L' ∷ b'i' ∷ b's' ∷ b't' ∷ b'e' ∷ b'n' ∷ b'P' ∷ b'o' ∷ b'r' ∷ b't' ∷ []

abbrev pub listen_port_count_name : List ℕ
listen_port_count_name = listen_port_name ++ b'C' ∷ b'o' ∷ b'u' ∷ b'n' ∷ b't' ∷ []

abbrev pub wait_time_name : List ℕ
wait_time_name =
    b'S' ∷ b'o' ∷ b'c' ∷ b'k' ∷ b'_' ∷ b'R' ∷ b'e' ∷ b'c' ∷ b'y' ∷ b'C' ∷ b'o' ∷ b'n' ∷ b'n' ∷ b'e'
    ∷ b'c' ∷ b't' ∷ b'i' ∷ b'o' ∷ b'n' ∷ b'W' ∷ b'a' ∷ b'i' ∷ b't' ∷ b'T' ∷ b'i' ∷ b'm' ∷ b'e' ∷ []

unfoldable pub read_conf : (List ℕ → ℤ) → List ConfItem → Numbers → Numbers
unfolding get_int_default
read_conf atoi items n = record {
  worker_connections = get_int_default atoi worker_connections_name n.worker_connections items;
  listen_port_count = get_int_default atoi listen_port_count_name n.listen_port_count items;
  recy_connection_wait_time = get_int_default atoi wait_time_name n.recy_connection_wait_time items;
}

-- How often `for (int i = 0; i < n; i++)` runs.
abbrev pub rounds : ℤ → ℕ
rounds (pos n) = n
rounds (negsuc n) = 0

-- What the kernel answers in one round: socket() with its descriptor, or -1, and whether the other calls
-- succeed; bind() looks at the port.
pub record SocketCalls : Type 0 where
  pub socket : Option ℕ
  pub setsockopt : Bool
  pub ioctl : Bool
  pub bind : ℕ → Bool
  pub listen : Bool

unfoldable pub setnonblocking : SocketCalls → Bool
setnonblocking k = k.ioctl

-- sprintf(strinfo, "ListenPort%d", i), and the value that the configuration has for it.
unfoldable pub listen_port : (List ℕ → ℤ) → List ConfItem → ℕ → ℤ
unfolding get_int_default digits_loop
listen_port atoi items i =
    get_int_default atoi (listen_port_name ++ digits_loop 10 10 decimal i []) (pos 10000) items

-- (in_port_t)iport.
unfoldable pub in_port : ℤ → ℕ
in_port (pos n) = n % 2 ^ 16
in_port (negsuc n) = (2 ^ 16 - (n + 1) % 2 ^ 16) % 2 ^ 16

abbrev pub open_socket : ℕ → Listen → Listen
open_socket fd l = record l { descriptors = fd ∷ l.descriptors }

unfoldable pub close_socket : ℕ → Listen → Listen
unfolding remove
close_socket fd l = record l { descriptors = remove fd l.descriptors }

abbrev pub add_listening : ℕ → ℤ → Listen → Listen
add_listening fd port l = record l {
  listen_socket_list =
      l.listen_socket_list ++ record { port = port; fd = fd; connection = none } ∷ [];
}

-- The part of a round behind socket(), and whether it goes on to its end.
unfoldable pub set_up_socket : SocketCalls → ℕ → ℤ → Listen → Listen × Bool
unfolding setnonblocking close_socket in_port
set_up_socket k isock iport l =
    if not k.setsockopt
    then (close_socket isock l, false)
    else if not (setnonblocking k)
    then (close_socket isock l, false)
    else if not (k.bind (in_port iport))
    then (close_socket isock l, false)
    else if not k.listen
    then (close_socket isock l, false)
    else (add_listening isock iport l, true)

unfoldable pub open_round : SocketCalls → ℤ → Listen → Listen × Bool
unfolding set_up_socket
open_round k iport l = elim k.socket [
  | none ↦ (l, false)
  | some isock ↦ set_up_socket k isock iport (open_socket isock l)
]

-- The loop, from round i on, with so many rounds to go.
unfoldable pub open_rounds : (ℕ → SocketCalls) → (ℕ → ℤ) → ℕ → ℕ → Listen → Listen × Bool
unfolding open_round
open_rounds kernel port zero i l = (l, true)
open_rounds kernel port (suc n) i l =
    let (t, ok) = open_round (kernel i) (port i) l in
    let rest = open_rounds kernel port n (i + 1) t in if ok then rest else (t, false)

unfoldable pub ngx_open_listening_sockets :
    (ℕ → SocketCalls) → (List ℕ → ℤ) → List ConfItem → ℤ → Listen → Listen × Bool
unfolding open_rounds listen_port
ngx_open_listening_sockets kernel atoi items count l =
    let (t, ok) = open_rounds kernel (listen_port atoi items) (rounds count) 0 l in
    if ok then (t, not (leb (length t.listen_socket_list) 0)) else (t, false)

-- `none` where the count goes beyond the end of the list.
unfoldable pub close_rounds : ℕ → ℕ → Listen → Option Listen
unfolding close_socket
close_rounds zero i l = some l
close_rounds (suc n) i l = elim (get_elem? l.listen_socket_list i) [
  | none ↦ none
  | some item ↦ close_rounds n (i + 1) (close_socket item.fd l)
]

unfoldable pub ngx_close_listening_sockets : ℤ → Listen → Option Listen
unfolding close_rounds
ngx_close_listening_sockets count l = close_rounds (rounds count) 0 l

-- ~CSocekt: the items go, their descriptors stay open.
unfoldable pub destroy_listening : Listen → Listen
destroy_listening l = record l { listen_socket_list = [] }

-- What the master process does before it forks.
unfoldable pub initialize :
    (ℕ → SocketCalls) → (List ℕ → ℤ) → List ConfItem → Numbers → Listen → Numbers × (Listen × Bool)
unfolding read_conf ngx_open_listening_sockets
initialize kernel atoi items n l =
    let n' = read_conf atoi items n in
    (n', ngx_open_listening_sockets kernel atoi items n'.listen_port_count l)
