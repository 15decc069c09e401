-- ===== src/Worker/Turns.antt =====
-- The pool of connections and the blocks of messages, from a worker's start on.
use linux_c_study.Prelude.{
  ℕ, zero, suc, ◌+◌, ◌≡◌, refl, subst, arith, List, [], ◌∷◌, ◌++◌, Option, none, some, Bool, true,
  false, Bool-cases, Option-cases, inl, inr, ap, count, count-append,
}
use linux_c_study.Net.Socket.{
  Socket, new_connection, add_connection, add_connections, initconnection, ngx_get_connection,
}
use linux_c_study.Net.Socket.Lifecycle.{no_connections, init-IsValid}
use linux_c_study.Net.Epoll.{ngx_epoll_oper_event, oper_events}
use linux_c_study.Net.Events.{Loop}
use linux_c_study.Net.Events.Pool.{process_event-Kept}
use linux_c_study.Net.Listen.{Listening}
use linux_c_study.Net.Start.{set_listening, add_item, listen_on, ngx_epoll_init}
use linux_c_study.Net.Start.Listeners.{listen_events, watch-Watched, watch}
use linux_c_study.Threads.{init}
use linux_c_study.Net.Conn.{Connection, Msg}
use linux_c_study.Logic.{select_command}
use linux_c_study.Worker.{
  Worker, Job, taken, selected, returned, check_job, Step, event, round, take, check, run, free,
  Reach, here, next,
}
use linux_c_study.Worker.Blocks.{conn_blocks, queue_blocks, AllFilled}
use linux_c_study.Worker.Received.{Tidy}
use linux_c_study.Worker.Balance.{
  Balanced, SameHolders, SameHolders-trans, same-Balanced, write-SameHolders,
}
use linux_c_study.Worker.Handlers.{get-Balanced, part}
use linux_c_study.Worker.Accepting.{process_event-Balanced, set_events-SameHolders}
use linux_c_study.Worker.Rounds.{Sound, round-Sound}
use linux_c_study.Worker.Jobs.{command_answers, run_command-Worked}
use linux_c_study.Worker.Finish.{
  in_hand, hand_blocks, count-hand_blocks, count-Sound, take-Sound, run-Sound, free-Sound, reply,
}

-- A worker with this pool, before its first event.
abbrev pub at_start : ℕ → Socket → Loop
at_start threads k = record {
  server = record { socket = k; memory = record { next = 0; live = [] }; pool = init threads };
  use_accept4 = true;
}

-- The pool threads have nothing in their hands yet.
abbrev pub begin : Loop → Worker
begin l = record { loop = l; jobs = [] }

-- The blocks of the answers that the turns made.
unfoldable pub step_replies : {w v : Worker} → Step w v → List ℕ
step_replies (event fill now e u) = []
step_replies (round stop now) = []
step_replies (take m rest e) = []
step_replies (check before after m e) = []
step_replies {w} (run fill ctl before after m command body e) =
    reply (command_answers m command body) w.loop.server.memory
step_replies (free before after m e) = []

unfoldable pub replies : {w v : Worker} → Reach w v → List ℕ
unfolding step_replies
replies here = []
replies (next r s) = step_replies s ++ replies r

check_job-in_hand : (conns : ℕ → Connection) (m : Msg) → in_hand (check_job conns m) ≡ m
unfolding check_job
check_job-in_hand conns m = elim (Option-cases (select_command conns m)) [
  | inl e ↦ rw (e, check_job) refl
  | inr (c, e) ↦ rw (e, check_job) refl
]

-- The blocks in the hands of pool threads, and before them those of answers.
abbrev pub elsewhere : List Job → List ℕ → List ℕ
elsewhere jobs lost = hand_blocks jobs ++ lost

-- The blocks elsewhere where a job is at its place.
count-elsewhere :
    (a : ℕ) (jobs before : List Job) (j : Job) (after : List Job) (lost : List ℕ)
    → jobs ≡ before ++ j ∷ after
    → count a (elsewhere jobs lost)
      ≡ count a ((in_hand j).addr ∷ []) + (count a (hand_blocks (before ++ after)) + count a lost)
count-elsewhere a jobs before j after lost e = omega (
  arith,
  ap (λ js. count a (elsewhere js lost)) e,
  count-append a (hand_blocks (before ++ j ∷ after)) lost,
  count-hand_blocks a before j after,
)

-- The same message, in the same hand.
count-same_hand :
    (a : ℕ) (jobs before : List Job) (j j' : Job) (after : List Job) (lost : List ℕ)
    → jobs ≡ before ++ j ∷ after
    → in_hand j' ≡ in_hand j
    → count a (elsewhere (before ++ j' ∷ after) lost) ≡ count a (elsewhere jobs lost)
count-same_hand a jobs before j j' after lost e f = omega (
  arith,
  count-elsewhere a jobs before j after lost e,
  count-elsewhere a (before ++ j' ∷ after) before j' after lost refl,
  ap (λ (m : Msg). count a (m.addr ∷ [])) f,
)

Step-Sound :
    {w v : Worker} (lost : List ℕ) (s : Step w v)
    → Sound (elsewhere w.jobs lost) w.loop.server
    → Sound (elsewhere v.jobs (step_replies s ++ lost)) v.loop.server
unfolding step_replies hand_blocks
Step-Sound {w} lost (event fill now e u) g = record {
  valid = (process_event-Kept fill now e w.loop g.valid u).valid;
  balanced = process_event-Balanced (elsewhere w.jobs lost) fill now e w.loop g.valid u g.balanced;
}
Step-Sound {w} lost (round stop now) g =
    round-Sound (elsewhere w.jobs lost) stop now w.loop.server g
Step-Sound {w} lost (take m rest e) g = take-Sound (elsewhere w.jobs lost) m rest w.loop.server e g
Step-Sound {w} lost (check before after m e) g =
    count-Sound (elsewhere w.jobs lost) _ w.loop.server
      (λ a.
        count-same_hand a w.jobs before (taken m) (check_job w.loop.server.socket.conns m) after
          lost e (check_job-in_hand w.loop.server.socket.conns m))
      g
Step-Sound {w} lost (run fill ctl before after m command body e) g =
    let made = command_answers m command body in
    count-Sound (reply made w.loop.server.memory ++ elsewhere w.jobs lost) _ _
      (λ a. omega (
        arith,
        count-same_hand a w.jobs before (selected m command body) (returned m) after
            (reply made w.loop.server.memory ++ lost) e refl,
        count-append a (reply made w.loop.server.memory) (elsewhere w.jobs lost),
        count-append a (hand_blocks w.jobs) lost,
        count-append a (hand_blocks w.jobs) (reply made w.loop.server.memory ++ lost),
        count-append a (reply made w.loop.server.memory) lost,
      ))
      (run-Sound (elsewhere w.jobs lost) made w.loop.server _
        (run_command-Worked fill ctl m command body w.loop.server) g)
Step-Sound {w} lost (free before after m e) g =
    free-Sound (elsewhere (before ++ after) lost) m w.loop.server (
      count-Sound (elsewhere w.jobs lost) _ w.loop.server
        (λ a. omega (
          arith,
          count-elsewhere a w.jobs before (returned m) after lost e,
          count-append a (m.addr ∷ []) (elsewhere (before ++ after) lost),
          count-append a (hand_blocks (before ++ after)) lost,
        ))
        g)

-- No connection holds anything.
record Empty (k : Socket) : Type 0 where
  block : (p : ℕ) → (k.conns p).precv_mem_pointer ≡ none
  sending : (p : ℕ) → (k.conns p).psend_mem_pointer ≡ none
  tidy : (p : ℕ) → Tidy (k.conns p)

add_connections-Empty : (n : ℕ) (k : Socket) → Empty k → Empty (add_connections n k)
unfolding add_connections add_connection
add_connections-Empty zero k e = e
add_connections-Empty (suc n) k e = add_connections-Empty n (add_connection k) (record {
  block = λ p. part (λ d. d.precv_mem_pointer ≡ none) k.conns k.next_conn p _ refl (λ n. e.block p);
  sending =
      λ p. part (λ d. d.psend_mem_pointer ≡ none) k.conns k.next_conn p _ refl (λ n. e.sending p);
  tidy = λ p. part Tidy k.conns k.next_conn p _ refl (λ n. e.tidy p);
})

conn_blocks-Empty : (k : Socket) (ps : List ℕ) → Empty k → conn_blocks k.conns ps ≡ []
unfolding conn_blocks
conn_blocks-Empty k [] e = refl
conn_blocks-Empty k (p ∷ ps) e = rw (e.block p, conn_blocks-Empty k ps e) refl

Empty-Balanced : (threads : ℕ) (k : Socket) → Empty k → Balanced [] (at_start threads k).server
unfolding queue_blocks AllFilled init
Empty-Balanced threads k e = record {
  accounted = λ a. rw (conn_blocks-Empty k k.connection_list e) refl;
  once = λ a. omega arith;
  fresh = λ a h. refl;
  filled = tt;
  tidy = λ p h f. e.tidy p;
  idle = λ p h. e.block p;
  sending = e.sending;
}

init-Sound :
    (workers wait threads : ℕ)
    → Sound [] (at_start threads (initconnection (no_connections workers wait))).server
unfolding initconnection no_connections new_connection
init-Sound workers wait threads = record {
  valid = init-IsValid workers wait;
  balanced =
      Empty-Balanced threads _ (record { block = e.block; sending = e.sending; tidy = e.tidy });
}
  where
    e : Empty (add_connections workers (no_connections workers wait))
    e =
        add_connections-Empty workers (no_connections workers wait)
          (record { block = λ p. refl; sending = λ p. refl; tidy = λ p. refl })

-- A property of the pool that a start yields, if it yields one.
OnSome : (Socket → Type 0) → Option (List Listening × Socket) → Type 0
OnSome P none = Unit
OnSome P (some (ls, k)) = P k

OnSome-add :
    (P : Socket → Type 0) (l : Listening) (r : Option (List Listening × Socket))
    → OnSome P r
    → OnSome P (add_item l r)
unfolding OnSome
OnSome-add P l none h = tt
OnSome-add P l (some (ls, k)) h = h

watch-SameHolders : (i p : ℕ) (k : Socket) → SameHolders k (watch i p k)
watch-SameHolders i p k =
    SameHolders-trans k (set_listening i p k) _
      (write-SameHolders k _ p _ refl refl refl refl refl refl)
      (set_events-SameHolders p listen_events (set_listening i p k))

listen_on-Sound :
    (ctl : ℕ → ℕ → Bool) (threads i : ℕ) (items : List Listening) (k : Socket)
    → Sound [] (at_start threads k).server
    → OnSome (λ k'. Sound [] (at_start threads k').server) (listen_on ctl i items k)
unfolding listen_on ngx_epoll_oper_event oper_events OnSome
listen_on-Sound ctl threads i [] k g = g
listen_on-Sound ctl threads i (l ∷ ls) k g = elim (Bool-cases (ctl l.fd listen_events)) [
  | inr e ↦ rw (e, listen_on) tt
  | inl e ↦
      let (p, t) = ngx_get_connection l.fd k in
      let r = watch-Watched k i l g.valid in
      let b =
        same-Balanced [] (at_start threads t).server _ (watch-SameHolders i p t)
          (get-Balanced [] l.fd (at_start threads k).server g.valid g.balanced) in
      rw (e, listen_on)
        (OnSome-add (λ k'. Sound [] (at_start threads k').server) (record l { connection = some p })
          (listen_on ctl (i + 1) ls (watch i p t))
          (listen_on-Sound ctl threads (i + 1) ls (watch i p t)
            (record { valid = r.valid; balanced = b })))
]

epoll_init-Sound :
    (created : Bool) (ctl : ℕ → ℕ → Bool) (items : List Listening) (workers wait threads : ℕ)
    → OnSome
        (λ k. Sound [] (at_start threads k).server)
        (ngx_epoll_init created ctl items (no_connections workers wait))
unfolding ngx_epoll_init OnSome
epoll_init-Sound true ctl items workers wait threads =
    listen_on-Sound ctl threads 0 items _ (init-Sound workers wait threads)
epoll_init-Sound false ctl items workers wait threads = tt

-- From a worker's start on, whatever the clients send, the kernel answers and the order of the threads is, as long
-- as epoll reports events only for connections in use, the pool of connections stays in order, and every block
-- that is allocated for a message or an answer and not freed has exactly one owner: a connection of the pool,
-- the queue of messages, a pool thread that has taken its message and not yet freed it, or, for the answers
-- to registrations, nobody any more. So no other such block is lost, and none that has an owner is freed. Any
-- number of pool threads may be at work. The connection objects themselves are not among these blocks.
pub Reach-Sound :
    (created : Bool) (ctl : ℕ → ℕ → Bool) (items items' : List Listening) (workers wait threads : ℕ)
    (k : Socket) {w : Worker}
    → ngx_epoll_init created ctl items (no_connections workers wait) ≡ some (items', k)
    → (r : Reach (begin (at_start threads k)) w)
    → Sound (hand_blocks w.jobs ++ replies r) w.loop.server
unfolding replies OnSome hand_blocks
Reach-Sound created ctl items items' workers wait threads k e here =
    subst (OnSome (λ k'. Sound [] (at_start threads k').server)) e
      (epoll_init-Sound created ctl items workers wait threads)
Reach-Sound created ctl items items' workers wait threads k e (next r s) =
    Step-Sound (replies r) s (Reach-Sound created ctl items items' workers wait threads k e r)
