-- ===== src/Logic.antt =====
-- linux_c++_6_4/nginx/logic/ngx_c_slogic.cxx: checking a received package and running its command.
pub mod Check
pub mod Corrupt
pub mod Stale
pub mod Reply
use linux_c_study.Prelude.{
  ℕ, ◌+◌, ◌-◌, ◌*◌, ◌/◌, ◌%◌, ◌^◌, List, [], ◌∷◌, ◌++◌, Option, none, some, Bool, true, false, not,
  leb, ◌==◌, if◌then◌else◌, take, drop, splice, length, get_elem?, ℤ,
}
use linux_c_study.Crc.{get_crc}
use linux_c_study.Net.Memory.{Memory, alloc_memory, contents}
use linux_c_study.Net.Conn.{Connection, Msg, len_pkg_header, len_msg_header, pkg_len}
use linux_c_study.Net.Socket.{Socket, Server}
use linux_c_study.Net.Epoll.{epoll_ctl_mod, epollout, ngx_epoll_oper_event}

abbrev pub cmd_register : ℕ
cmd_register = 5

-- sizeof(STRUCT_REGISTER): iType, username, password.
abbrev pub size_register : ℕ
size_register = 4 + 56 + 40

-- ntohs and ntohl: numbers from bytes in network order, and back.
abbrev pub be16 : List ℕ → ℕ
be16 (a ∷ b ∷ rest) = a * 256 + b
be16 other = 0

abbrev pub be32 : List ℕ → ℕ
be32 (a ∷ b ∷ c ∷ d ∷ rest) = ((a * 256 + b) * 256 + c) * 256 + d
be32 other = 0

abbrev pub to_be16 : ℕ → List ℕ
to_be16 n = (n / 256 % 256) ∷ (n % 256) ∷ []

abbrev pub to_be32 : ℕ → List ℕ
to_be32 n = (n / 2 ^ 24 % 256) ∷ (n / 2 ^ 16 % 256) ∷ (n / 2 ^ 8 % 256) ∷ (n % 256) ∷ []

-- The fields of the package header.
abbrev pub msg_code : List ℕ → ℕ
msg_code pkg = be16 (drop 2 pkg)

abbrev pub crc32 : List ℕ → ℕ
crc32 pkg = be32 (drop 4 pkg)

pub data Command : Type 0 where
  register log_in : Command

-- statusHandler; `none` is NULL.
abbrev pub status_handler : List (Option Command)
status_handler = none ∷ none ∷ none ∷ none ∷ none ∷ some register ∷ some log_in ∷ []

abbrev pub auth_total_commands : ℕ
auth_total_commands = length status_handler

abbrev pub join {ℓ} : {A : Type ℓ} → Option (Option A) → Option A
join none = none
join (some o) = o

-- `pkglen - m_iLenPkgHeader` as the unsigned int that Get_CRC takes.
abbrev pub body_length : ℕ → ℕ
body_length pkglen = (pkglen + 2 ^ 32 - len_pkg_header) % 2 ^ 32

-- The body, where the check value fits: `some none` for a package that is a header only.
unfoldable pub check_crc : List ℕ → Option (Option (List ℕ))
unfolding get_crc
check_crc pkg =
    if len_pkg_header == pkg_len pkg
    then (if crc32 pkg == 0 then some none else none)
    else (let body = take (body_length (pkg_len pkg)) (drop len_pkg_header pkg) in
        if get_crc body == crc32 pkg then some (some body) else none)

-- The checks of threadRecvProcFunc: the command that is to run, and the body it is given.
unfoldable pub select_command : (ℕ → Connection) → Msg → Option (Command × Option (List ℕ))
unfolding check_crc
select_command conns m = elim (check_crc m.pkg) [
  | none ↦ none
  | some body ↦
      if not ((conns m.p_conn).i_currsequence == m.i_currsequence)
      then none
      else if leb auth_total_commands (msg_code m.pkg)
      then none
      else elim (join (get_elem? status_handler (msg_code m.pkg))) [
        | none ↦ none
        | some command ↦ some (command, body)
      ]
]

-- The answer to a registration. Its body is what the new memory held: the source fills nothing in yet.
unfoldable pub register_reply : ℕ → (ℕ → ℕ) → Msg → Msg
unfolding contents get_crc
register_reply addr fill m =
    let info =
      drop (len_msg_header + len_pkg_header)
        (contents (len_msg_header + len_pkg_header + size_register) false fill) in
    record {
      addr = addr;
      p_conn = m.p_conn;
      i_currsequence = m.i_currsequence;
      pkg =
          to_be16 (len_pkg_header + size_register)
          ++ (to_be16 cmd_register ++ (to_be32 (get_crc info) ++ info));
    }

-- The same difference as the unsigned short that the handlers take.
abbrev pub i_body_length : ℕ → ℕ
i_body_length pkglen = (pkglen + 2 ^ 16 - len_pkg_header) % 2 ^ 16

-- The answer is made and not handed to anybody: the call of msgSend is commented out.
unfoldable pub handle_register :
    (ℕ → ℕ) → (ℕ → Bool) → Msg → Option (List ℕ) → Server → Server × Bool
unfolding alloc_memory register_reply ngx_epoll_oper_event
handle_register fill ctl m none s = (s, false)
handle_register fill ctl m (some body) s =
    let (addr, memory') = alloc_memory s.memory in
    let reply = register_reply addr fill m in
    let (socket', ret) = ngx_epoll_oper_event ctl epoll_ctl_mod epollout 0 m.p_conn s.socket in
    if not (size_register == i_body_length (pkg_len m.pkg))
    then (s, false)
    else (record s { socket = socket'; memory = memory' }, true)

unfoldable pub run_command :
    (ℕ → ℕ) → (ℕ → Bool) → Msg → Command → Option (List ℕ) → Server → Server
unfolding handle_register
run_command fill ctl m register body s = (handle_register fill ctl m body s).0
run_command fill ctl m log_in body s = s

-- The work of a pool thread on one message.
unfoldable pub thread_recv_proc_func : (ℕ → ℕ) → (ℕ → Bool) → Msg → Server → Server
unfolding select_command run_command
thread_recv_proc_func fill ctl m s = elim (select_command s.socket.conns m) [
  | none ↦ s
  | some (command, body) ↦ run_command fill ctl m command body s
]
