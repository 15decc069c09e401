-- ===== src/Worker/Listening.antt =====
-- A worker goes on listening.
use Prim.Native.Nat.{bit_and}
use linux_c_study.Prelude.{
  ℕ, ◌+◌, ◌≡◌, ◌≢◌, refl, sym, ap, subst, ◌∙◌, List, [], ◌∷◌, Option, none, some, Bool, true, false,
  ◌==◌, Bool-cases, inl, inr, ℕ_discrete,
}
use mathlib.Core.Option.{some_inj}
use linux_c_study.Net.Conn.{Handler, Msg, event_accept, wait_request_handler, pkg_len}
use linux_c_study.Net.Socket.{Socket, Server}
use linux_c_study.Net.Socket.Invariant.{IsValid, InUse}
use linux_c_study.Net.Socket.Lifecycle.{no_connections}
use linux_c_study.Net.Epoll.{epollin, epollout, epoll_ctl_mod}
use linux_c_study.Net.Events.{Event, Loop, run_handler, process_event}
use linux_c_study.Net.Events.Kept.{SameLists-InUse, wait-Kept}
use linux_c_study.Net.Events.Pool.{accept-Grown}
use linux_c_study.Net.Listen.{Listening}
use linux_c_study.Net.Start.{ngx_epoll_init}
use linux_c_study.Net.Start.Listeners.{AllAccept, Outcome, exits, starts, epoll_init-Outcome}
use linux_c_study.Logic.{
  Command, register, log_in, handle_register, run_command, size_register, i_body_length,
}
use linux_c_study.Worker.{
  Worker, free_job, Step, event, round, take, check, run, free, Reach, here, next,
}
use linux_c_study.Worker.Faces.{
  SameFace, oper_event-SameFace, wait-SameFace, accept-SameFace, Stays, round-Stays,
}
use linux_c_study.Worker.Jobs.{run_command-Worked}
use linux_c_study.Worker.Turns.{at_start, begin, Reach-Sound}

abbrev Unmoved : (s : Socket) (q : ℕ) → InUse s q → Stays q s s
Unmoved s q u = record { in_use = u; same = refl }

abbrev accepts : Handler → Bool
accepts event_accept = true
accepts wait_request_handler = false

handler_here :
    (h : Option Handler) (fill : ℕ → ℕ) (now q : ℕ) (e : Event) (l : Loop)
    → h ≡ some event_accept
    → IsValid l.server.socket
    → InUse l.server.socket q
    → Stays q l.server.socket (run_handler fill now e h l).server.socket
unfolding run_handler
handler_here none fill now q e l a v u = cc
handler_here (some wait_request_handler) fill now q e l a v u =
    let z : false ≡ true = ap accepts (some_inj.0 a) in cc
handler_here (some event_accept) fill now q e l a v u = record {
  in_use = (accept-Grown e.kernel l.use_accept4 e.ptr l.server v).all q u;
  same = accept-SameFace e.kernel l.use_accept4 e.ptr q l.server v u;
}

handler_there :
    (h : Option Handler) (fill : ℕ → ℕ) (now q : ℕ) (e : Event) (l : Loop)
    → q ≢ e.ptr
    → IsValid l.server.socket
    → InUse l.server.socket e.ptr
    → InUse l.server.socket q
    → Stays q l.server.socket (run_handler fill now e h l).server.socket
unfolding run_handler
handler_there none fill now q e l n v w u = Unmoved l.server.socket q u
handler_there (some wait_request_handler) fill now q e l n v w u = record {
  in_use = (wait-Kept fill now e.ptr e.recv l.server v w).others q n u;
  same = wait-SameFace fill now e.ptr q e.recv l.server n;
}
handler_there (some event_accept) fill now q e l n v w u =
    handler_here (some event_accept) fill now q e l refl v u

process_event-Stays :
    (fill : ℕ → ℕ) (now q : ℕ) (e : Event) (l : Loop)
    → (l.server.socket.conns q).rhandler ≡ some event_accept
    → IsValid l.server.socket
    → InUse l.server.socket e.ptr
    → InUse l.server.socket q
    → Stays q l.server.socket (process_event fill now e l).server.socket
unfolding process_event
process_event-Stays fill now q e l a v w u = elim (Bool-cases (bit_and e.revents epollin == 0)) [
  | inl f ↦ rw f (Unmoved l.server.socket q u)
  | inr f ↦ rw f (elim (ℕ_discrete q e.ptr) [
    | yes d ↦
        handler_here ((l.server.socket.conns e.ptr).rhandler) fill now q e l
          (ap (λ p. (l.server.socket.conns p).rhandler) (sym d) ∙ a) v u
    | no d ↦ handler_there ((l.server.socket.conns e.ptr).rhandler) fill now q e l d v w u
  ])
]

run_command-SameFace :
    (fill : ℕ → ℕ) (ctl : ℕ → Bool) (m : Msg) (c : Command) (body : Option (List ℕ)) (q : ℕ)
    (s : Server)
    → SameFace q s.socket (run_command fill ctl m c body s).socket
unfolding run_command handle_register
run_command-SameFace fill ctl m log_in body q s = refl
run_command-SameFace fill ctl m register none q s = refl
run_command-SameFace fill ctl m register (some body) q s =
    elim (Bool-cases (size_register == i_body_length (pkg_len m.pkg))) [
      | inl e ↦
          rw (e, run_command, handle_register)
            (oper_event-SameFace ctl epoll_ctl_mod epollout 0 m.p_conn q s.socket)
      | inr e ↦ rw (e, run_command, handle_register) refl
    ]

Step-Stays :
    {w v : Worker} (q : ℕ)
    → Step w v
    → (w.loop.server.socket.conns q).rhandler ≡ some event_accept
    → IsValid w.loop.server.socket
    → InUse w.loop.server.socket q
    → Stays q w.loop.server.socket v.loop.server.socket
unfolding free_job
Step-Stays {w} q (event fill now e h) a v u = process_event-Stays fill now q e w.loop a v h u
Step-Stays {w} q (round stop now) a v u = round-Stays stop now q w.loop.server u
Step-Stays {w} q (take m rest e) a v u = Unmoved w.loop.server.socket q u
Step-Stays {w} q (check before after m e) a v u = Unmoved w.loop.server.socket q u
Step-Stays {w} q (run fill ctl before after m command body e) a v u = record {
  in_use =
      SameLists-InUse w.loop.server.socket _ q
        (run_command-Worked fill ctl m command body w.loop.server).lists u;
  same = run_command-SameFace fill ctl m command body q w.loop.server;
}
Step-Stays {w} q (free before after m e) a v u = Unmoved w.loop.server.socket q u

-- The connection of the i-th listening socket accepts its clients.
pub record Listens (s : Socket) (i : ℕ) (l : Listening) (p : ℕ) : Type 0 where
  pub own : l.connection ≡ some p
  pub in_use : InUse s p
  pub descriptor : (s.conns p).fd ≡ l.fd
  pub listening : (s.conns p).listening ≡ some i
  pub handler : (s.conns p).rhandler ≡ some event_accept

unfoldable pub AllListen : Socket → ℕ → List Listening → Type 0
AllListen s i [] = Unit
AllListen s i (l ∷ ls) = ((p : ℕ) × Listens s i l p) × AllListen s (i + 1) ls

Stays-Listens :
    (s t : Socket) (i : ℕ) (l : Listening) (p : ℕ) → Listens s i l p → Stays p s t → Listens t i l p
Stays-Listens s t i l p h k = record {
  own = h.own;
  in_use = k.in_use;
  descriptor = ap (λ f. f.0) k.same ∙ h.descriptor;
  listening = ap (λ f. f.1) k.same ∙ h.listening;
  handler = ap (λ f. f.2) k.same ∙ h.handler;
}

Step-AllListen :
    {w t : Worker} (i : ℕ) (items : List Listening)
    → Step w t
    → IsValid w.loop.server.socket
    → AllListen w.loop.server.socket i items
    → AllListen t.loop.server.socket i items
unfolding AllListen
Step-AllListen i [] st v h = tt
Step-AllListen {w} {t} i (x ∷ xs) st v ((p, a), rest) = (
  (
    p,
    Stays-Listens w.loop.server.socket t.loop.server.socket i x p a
        (Step-Stays p st a.handler v a.in_use),
  ),
  Step-AllListen (i + 1) xs st v rest,
)

AllAccept-AllListen :
    (s : Socket) (i : ℕ) (items : List Listening) → AllAccept s i items → AllListen s i items
unfolding AllAccept AllListen
AllAccept-AllListen s i [] h = tt
AllAccept-AllListen s i (x ∷ xs) ((p, a), rest) = (
  (
    p,
    record {
      own = a.own;
      in_use = a.in_use;
      descriptor = a.descriptor;
      listening = a.listening;
      handler = a.handler;
    },
  ),
  AllAccept-AllListen s (i + 1) xs rest,
)

-- The listening sockets of a worker that has started.
epoll_init-AllListen :
    (created : Bool) (ctl : ℕ → ℕ → Bool) (items items' : List Listening) (workers wait : ℕ)
    (k : Socket)
    → ngx_epoll_init created ctl items (no_connections workers wait) ≡ some (items', k)
    → AllListen k 0 items'
epoll_init-AllListen created ctl items items' workers wait k e =
    go (epoll_init-Outcome created ctl items workers wait) e
  where
    go :
        {s : Socket} {b : Bool} {r : Option (List Listening × Socket)}
        → Outcome s 0 items b r
        → r ≡ some (items', k)
        → AllListen k 0 items'
    go exits f = cc
    go (starts xs t st) f =
        subst (λ (x : List Listening × Socket). AllListen x.1 0 x.0) (some_inj.0 f)
          (AllAccept-AllListen t 0 xs st.accepting)

-- From a worker's start on, whatever the clients send, the kernel answers and the order of the threads is, as long
-- as epoll reports events only for connections in use, each listening socket keeps its connection, in use, with the socket's
-- descriptor and the handler that accepts clients.
pub Reach-AllListen :
    (created : Bool) (ctl : ℕ → ℕ → Bool) (items items' : List Listening) (workers wait threads : ℕ)
    (k : Socket) {t : Worker}
    → ngx_epoll_init created ctl items (no_connections workers wait) ≡ some (items', k)
    → Reach (begin (at_start threads k)) t
    → AllListen t.loop.server.socket 0 items'
Reach-AllListen created ctl items items' workers wait threads k e here =
    epoll_init-AllListen created ctl items items' workers wait k e
Reach-AllListen created ctl items items' workers wait threads k e (next r st) =
    Step-AllListen 0 items' st
      (Reach-Sound created ctl items items' workers wait threads k e r).valid
      (Reach-AllListen created ctl items items' workers wait threads k e r)
