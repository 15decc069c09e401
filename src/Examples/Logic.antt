-- ===== src/Examples/Logic.antt =====
-- Packages and messages at the business logic.
use linux_c_study.Prelude.{
  ℕ, ◌≡◌, ◌≢◌, ◌↔◌, refl, ap, List, [], ◌∷◌, ◌++◌, some, none, arith, true, length, drop, Bool,
}
use linux_c_study.Net.Conn.{Connection, Msg, len_pkg_header}
use linux_c_study.Net.Socket.{Server, recycle, new_connection}
use linux_c_study.Net.Socket.Lifecycle.{start}
use linux_c_study.Net.Request.{received, ngx_wait_request_handler}
use linux_c_study.Net.Recv.Stream.{packages}
use linux_c_study.Net.Recv.Whole.{Whole}
use linux_c_study.Logic.{
  log_in, check_crc, select_command, register_reply, thread_recv_proc_func, msg_code, cmd_register,
  size_register,
}
use linux_c_study.Logic.Check.{Selected, select_command-Selected}
use linux_c_study.Logic.Corrupt.{check_crc-burst}
use linux_c_study.Logic.Stale.{accept_next, thread_recv_proc_func-stale}
use linux_c_study.Logic.Reply.{register_reply-accepted}

-- The header of a package with the body "123456789", whose CRC is the well-known check value.
abbrev header : List ℕ
header = 0 ∷ 17 ∷ 0 ∷ 6 ∷ 0xcb ∷ 0xf4 ∷ 0x39 ∷ 0x26 ∷ []

abbrev start_of_body : List ℕ
start_of_body = 0x31 ∷ 0x32 ∷ 0x33 ∷ []

abbrev end_of_body : List ℕ
end_of_body = 0x35 ∷ 0x36 ∷ 0x37 ∷ 0x38 ∷ 0x39 ∷ []

abbrev digits : List ℕ
digits = start_of_body ++ 0x34 ∷ end_of_body

abbrev log_in_package : List ℕ
log_in_package = header ++ digits

log_in_package-Whole : Whole log_in_package
log_in_package-Whole = record { announced = refl; at_least = omega arith; at_most = omega arith }

log_in_package-check : check_crc log_in_package ≡ some (some digits)
unfolding check_crc
log_in_package-check = refl

abbrev zeros : ℕ → ℕ
zeros i = 0

abbrev message : Msg
message = record { addr = 0; p_conn = 0; i_currsequence = 0; pkg = log_in_package }

abbrev conns : ℕ → Connection
conns p = new_connection

select_command-Selected_example :
    (select_command conns message ≡ some (log_in, some digits))
    ↔ Selected conns message log_in (some digits)
select_command-Selected_example =
    select_command-Selected conns message log_in (some digits) log_in_package-Whole

abbrev window : List ℕ
window = 0x34 ∷ 0x35 ∷ 0x36 ∷ 0x37 ∷ []

abbrev overwritten : List ℕ
overwritten = 0x34 ∷ 0x30 ∷ 0x36 ∷ 0x30 ∷ []

abbrev second : List ℕ → ℕ
second (a ∷ b ∷ bs) = b
second bs = 0

windows_differ : window ≢ overwritten
windows_differ e = let f = ap second e in omega (arith, f)

check_crc-burst_example :
    check_crc (header ++ (start_of_body ++ (overwritten ++ 0x38 ∷ 0x39 ∷ []))) ≡ none
check_crc-burst_example =
    check_crc-burst header start_of_body window overwritten (0x38 ∷ 0x39 ∷ []) (some digits) refl
      log_in_package-Whole refl (omega arith) (omega arith, (omega arith, (omega arith, tt)))
      (omega arith, (omega arith, (omega arith, (omega arith, tt))))
      (omega arith, (omega arith, (omega arith, (omega arith, tt))))
      (omega arith, (omega arith, tt)) windows_differ log_in_package-check

register_reply-accepted_example :
    (packages [] (register_reply 3 zeros message).pkg
      ≡ ([], (register_reply 3 zeros message).pkg ∷ []))
    × (msg_code (register_reply 3 zeros message).pkg ≡ cmd_register)
    × (check_crc (register_reply 3 zeros message).pkg
        ≡ some (some (drop len_pkg_header (register_reply 3 zeros message).pkg)))
    × (length (drop len_pkg_header (register_reply 3 zeros message).pkg) ≡ size_register)
register_reply-accepted_example = register_reply-accepted 3 zeros message (λ j. omega arith)

abbrev worker : Server
worker = start 2 60 4

abbrev yes : ℕ → Bool
yes events = true

abbrev waiting : Msg
waiting = record { addr = 0; p_conn = 1; i_currsequence = 1; pkg = log_in_package }

waiting-number : waiting.i_currsequence ≡ (worker.socket.conns waiting.p_conn).i_currsequence
unfolding start
waiting-number = refl

abbrev closed : Server
closed = ngx_wait_request_handler zeros 100 (received []) 1 worker

thread_recv_proc_func-stale_example :
    (thread_recv_proc_func zeros yes waiting closed ≡ closed)
    × (thread_recv_proc_func zeros yes waiting (recycle 1 closed) ≡ recycle 1 closed)
    × (thread_recv_proc_func zeros yes waiting (accept_next 7 (recycle 1 closed))
        ≡ accept_next 7 (recycle 1 closed))
thread_recv_proc_func-stale_example =
    thread_recv_proc_func-stale zeros yes 100 7 waiting worker waiting-number (omega arith)
