-- ===== src/Worker/Init.antt =====
-- The start of a worker, proc/ngx_process_cycle.cxx: ngx_worker_process_init, with CThreadPool::Create of
-- misc/ngx_c_threadpool.cxx.
use linux_c_study.Prelude.{
  ℕ, zero, suc, ◌+◌, ◌≡◌, ◌⊎◌, inl, inr, refl, sym, arith, List, [], ◌∷◌, ◌++◌, Option, none, some,
  Bool, true, false, Bool-cases, ◌&&◌, if◌then◌else◌, ℤ, pos, negsuc, length, length-append,
}
use linux_c_study.Net.Socket.{Socket, initconnection}
use linux_c_study.Net.Socket.Lifecycle.{no_connections}
use linux_c_study.Net.Events.{Loop}
use linux_c_study.Net.Listen.{Listening, Numbers, rounds}
use linux_c_study.Net.Start.{ngx_epoll_init}
use linux_c_study.Net.Start.Listeners.{
  Started, Outcome, exits, starts, all_taken, epoll_init-Outcome,
}
use linux_c_study.Net.Subproc.{Subproc, SubprocCalls, no_subproc, initialize_subproc}
use linux_c_study.Worker.Rounds.{Sound}
use linux_c_study.Worker.Turns.{at_start, replies, Reach-Sound}
use linux_c_study.Worker.{here}
use linux_c_study.Worker.Finish.{hand_blocks}
use linux_c_study.Worker.Exit.{initialize_subproc-Initialised}

-- The loop of Create: for each ThreadItem whether its thread was started. The loop behind it only waits until
-- all started threads run.
unfoldable pub create_loop : (ℕ → Bool) → ℕ → ℕ → List Bool → List Bool × Bool
create_loop ok zero i threads = (threads, true)
create_loop ok (suc n) i threads =
    let rest = create_loop ok n (i + 1) (threads ++ true ∷ []) in
    if ok i then rest else (threads ++ false ∷ [], false)

-- What the calls of a start answer: pthread_create() for each thread of the pool, those of Initialize_subproc,
-- epoll_create() and epoll_ctl().
pub record StartCalls : Type 0 where
  pub pthread_create : ℕ → Bool
  pub subproc : SubprocCalls
  pub epoll_create : Bool
  pub epoll_ctl : ℕ → ℕ → Bool

-- A worker that runs: its threads, its event loop and its listening sockets.
pub record Running : Type 0 where
  pub threads : List Bool
  pub subproc : Subproc
  pub loop : Loop
  pub listen_socket_list : List Listening

abbrev pub run_from : List Bool → Subproc → ℕ → Option (List Listening × Socket) → ℤ ⊎ Running
run_from threads sub n none = inl (pos 2)
run_from threads sub n (some (items, k)) =
    inr
      (record { threads = threads; subproc = sub; loop = at_start n k; listen_socket_list = items })

-- A negative waiting time counts as 0: under either a connection is due from the second on in which it was closed.
-- The running worker, or the status with which the process ends. `threads` is ProcMsgRecvWorkThreadCount.
unfoldable pub ngx_worker_process_init : StartCalls → ℤ → Numbers → List Listening → ℤ ⊎ Running
unfolding create_loop initialize_subproc ngx_epoll_init
ngx_worker_process_init k threads n items =
    let (started, created) = create_loop k.pthread_create (rounds threads) 0 [] in
    let (sub, ready) = initialize_subproc k.subproc no_subproc in
    if created
    then (if ready
        then run_from started sub (rounds threads) (
            ngx_epoll_init k.epoll_create k.epoll_ctl items
              (no_connections (rounds n.worker_connections) (rounds n.recy_connection_wait_time)))
        else inl (negsuc 1))
    else inl (negsuc 1)

-- Whether n calls succeed, from the i-th on.
unfoldable pub all_created : (ℕ → Bool) → ℕ → ℕ → Bool
all_created ok zero i = true
all_created ok (suc n) i = ok i && all_created ok n (i + 1)

unfoldable pub AllTrue : List Bool → Type 0
AllTrue [] = Unit
AllTrue (b ∷ bs) = (b ≡ true) × AllTrue bs

AllTrue-append : (bs : List Bool) → AllTrue bs → AllTrue (bs ++ true ∷ [])
unfolding AllTrue
AllTrue-append [] h = (refl, tt)
AllTrue-append (b ∷ bs) h = (h.0, AllTrue-append bs h.1)

-- Create returns true where all its calls succeed, and then every item has its thread.
create_loop-AllTrue :
    (ok : ℕ → Bool) (n i : ℕ) (threads : List Bool)
    → AllTrue threads
    → ((create_loop ok n i threads).1 ≡ all_created ok n i)
      × ((create_loop ok n i threads).1 ≡ true
          → AllTrue (create_loop ok n i threads).0
            × (length (create_loop ok n i threads).0 ≡ length threads + n))
unfolding create_loop all_created
create_loop-AllTrue ok zero i threads h = (refl, λ e. (h, omega arith))
create_loop-AllTrue ok (suc n) i threads h = elim (Bool-cases (ok i)) [
  | inl e ↦
      let (a, b) =
        create_loop-AllTrue ok n (i + 1) (threads ++ true ∷ []) (AllTrue-append threads h) in
      rw e (a, λ f. ((b f).0, omega (arith, (b f).1, length-append threads (true ∷ []))))
  | inr e ↦ rw e (refl, λ f. cc)
]

abbrev pub all_initialised : SubprocCalls → Bool
all_initialised k =
    k.init_send_mutex
    && (k.init_connection_mutex && (k.init_recyconn_mutex && (k.sem_init && k.pthread_create)))

-- A start that ends the process, and one that does not.
pub data Began (threads : ℤ) (n : Numbers) (items : List Listening)
    : Bool → ℤ ⊎ Running → Type 0 where
  ended :
      (status : ℤ)
      → (status ≡ negsuc 1) ⊎ (status ≡ pos 2)
      → Began threads n items false (inl status)
  began :
      (r : Running)
      → Sound [] r.loop.server
      → Started
          (initconnection
            (no_connections (rounds n.worker_connections) (rounds n.recy_connection_wait_time)))
          0
          items
          r.listen_socket_list
          r.loop.server.socket
      → AllTrue r.threads
      → length r.threads ≡ rounds threads
      → Began threads n items true (inr r)

run_from-Began :
    (k : StartCalls) (threads : ℤ) (n : Numbers) (items : List Listening) (started : List Bool)
    (sub : Subproc)
    → AllTrue started
    → length started ≡ rounds threads
    → Began threads n items (k.epoll_create && all_taken k.epoll_ctl items) (
        run_from started sub (rounds threads) (
          ngx_epoll_init k.epoll_create k.epoll_ctl items
            (no_connections (rounds n.worker_connections) (rounds n.recy_connection_wait_time))))
unfolding replies hand_blocks
run_from-Began k threads n items started sub h l =
    go
      (epoll_init-Outcome k.epoll_create k.epoll_ctl items (rounds n.worker_connections)
        (rounds n.recy_connection_wait_time))
      (λ items' t e.
        Reach-Sound k.epoll_create k.epoll_ctl items items' (rounds n.worker_connections)
          (rounds n.recy_connection_wait_time) (rounds threads) t e here)
  where
    go :
        {ok : Bool} {r : Option (List Listening × Socket)}
        → Outcome
            (initconnection
              (no_connections (rounds n.worker_connections) (rounds n.recy_connection_wait_time)))
            0
            items
            ok
            r
        → ((items' : List Listening) (t : Socket)
            → r ≡ some (items', t)
            → Sound [] (at_start (rounds threads) t).server)
        → Began threads n items ok (run_from started sub (rounds threads) r)
    go exits f = ended (pos 2) (inr refl)
    go (starts items' t st) f = began _ (f items' t refl) st h l

-- A worker begins exactly where every thread of the pool, every part that Initialize_subproc sets up and the epoll object
-- could be made and epoll takes every listening socket; else the process ends with the status -2 or 2. Where
-- it begins, the pool has as many threads as configured, its memory and its connections are in order, and
-- each listening socket has its connection.
pub worker_process_init-Began :
    (k : StartCalls) (threads : ℤ) (n : Numbers) (items : List Listening)
    → Began threads n items
        (all_created k.pthread_create (rounds threads) 0
          && (all_initialised k.subproc && (k.epoll_create && all_taken k.epoll_ctl items)))
        (ngx_worker_process_init k threads n items)
unfolding ngx_worker_process_init AllTrue
worker_process_init-Began k threads n items =
    let (c, all) = create_loop-AllTrue k.pthread_create (rounds threads) 0 [] tt in
    let i = (initialize_subproc-Initialised k.subproc).succeeds in
    elim (Bool-cases ((create_loop k.pthread_create (rounds threads) 0 []).1)) [
      | inr e ↦ rw (sym c, e) (ended (negsuc 1) (inl refl))
      | inl e ↦
          rw (sym c, e)
            (elim (Bool-cases ((initialize_subproc k.subproc no_subproc).1)) [
              | inr f ↦ rw (sym i, f) (ended (negsuc 1) (inl refl))
              | inl f ↦
                  rw (sym i, f)
                    (run_from-Began k threads n items _ _ (all e).0 (omega (arith, (all e).1)))
            ])
    ]
