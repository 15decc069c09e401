-- ===== src/Worker/Jobs.antt =====
-- What the work of a pool thread on a message changes. The answer to a registration is a
-- block that nobody frees.
use linux_c_study.Prelude.{
  ℕ, ◌≡◌, refl, inl, inr, List, Option, none, some, Bool, false, Bool-cases, Option-cases, ◌==◌,
  if◌then◌else◌,
}
use linux_c_study.Net.Memory.{alloc_memory}
use linux_c_study.Net.Conn.{Msg, pkg_len}
use linux_c_study.Net.Socket.{Socket, Server}
use linux_c_study.Net.Epoll.{ngx_epoll_oper_event, epoll_ctl_mod, epollout, oper_events}
use linux_c_study.Net.Events.Kept.{SameLists}
use linux_c_study.Logic.{
  Command, register, log_in, size_register, i_body_length, handle_register, run_command,
}
use linux_c_study.Worker.Balance.{SameHolders}
use linux_c_study.Worker.Accepting.{oper_event-SameHolders}

-- Whether the command makes an answer.
unfoldable pub command_answers : Msg → Command → Option (List ℕ) → Bool
command_answers m register none = false
command_answers m register (some body) = size_register == i_body_length (pkg_len m.pkg)
command_answers m log_in body = false

oper_event-SameLists :
    (ctl : ℕ → Bool) (eventtype flag bcaction p : ℕ) (s : Socket)
    → SameLists s (ngx_epoll_oper_event ctl eventtype flag bcaction p s).0
unfolding ngx_epoll_oper_event
oper_event-SameLists ctl eventtype flag bcaction p s =
    elim (Option-cases (oper_events eventtype flag bcaction ((s.conns p).events))) [
      | inl e ↦
          rw (e, ngx_epoll_oper_event)
            (record {
              next_conn = refl;
              connections = refl;
              free = refl;
              waiting = refl;
              total = refl;
              free_n = refl;
              recy_n = refl;
            })
      | inr (events, e) ↦
          rw (e, ngx_epoll_oper_event)
            (record {
              next_conn = refl;
              connections = refl;
              free = refl;
              waiting = refl;
              total = refl;
              free_n = refl;
              recy_n = refl;
            })
    ]

-- What a thread's work does to the rest of the server: a new block where it answers.
pub record Worked (made : Bool) (s t : Server) : Type 0 where
  pub lists : SameLists s.socket t.socket
  pub holders : SameHolders s.socket t.socket
  pub memory : t.memory ≡ (if made then (alloc_memory s.memory).1 else s.memory)
  pub pool : t.pool ≡ s.pool

nothing-Worked : (s : Server) → Worked false s s
nothing-Worked s = record {
  lists = record {
    next_conn = refl;
    connections = refl;
    free = refl;
    waiting = refl;
    total = refl;
    free_n = refl;
    recy_n = refl;
  };
  holders = record {
    pooled = refl;
    unused = refl;
    block = λ q. refl;
    state = λ q. refl;
    sending = λ q. refl;
  };
  memory = refl;
  pool = refl;
}

pub run_command-Worked :
    (fill : ℕ → ℕ) (ctl : ℕ → Bool) (m : Msg) (c : Command) (body : Option (List ℕ)) (s : Server)
    → Worked (command_answers m c body) s (run_command fill ctl m c body s)
unfolding run_command handle_register command_answers
run_command-Worked fill ctl m register none s = nothing-Worked s
run_command-Worked fill ctl m register (some body) s =
    elim (Bool-cases (size_register == i_body_length (pkg_len m.pkg))) [
      | inl e ↦
          rw (e, run_command, handle_register)
            (record {
              lists = oper_event-SameLists ctl epoll_ctl_mod epollout 0 m.p_conn s.socket;
              holders = oper_event-SameHolders ctl epoll_ctl_mod epollout 0 m.p_conn s.socket;
              memory = refl;
              pool = refl;
            })
      | inr e ↦ rw (e, run_command, handle_register) (nothing-Worked s)
    ]
run_command-Worked fill ctl m log_in body s = nothing-Worked s
