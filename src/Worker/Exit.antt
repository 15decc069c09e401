-- ===== src/Worker/Exit.antt =====
-- Around a worker's life: what Initialize_subproc of net/ngx_c_socket.cxx leaves where one of its calls fails, and
-- the queue that the destructor of CThreadPool, misc/ngx_c_threadpool.cxx, clears when the process ends.
use linux_c_study.Prelude.{◌≡◌, refl, [], Bool, Bool-cases, inl, inr, ◌&&◌}
use linux_c_study.Net.Socket.{Server}
use linux_c_study.Net.Subproc.{
  Subproc, SubprocCalls, no_subproc, start_recy_thread, init_semaphore, initialize_subproc,
  free_queue,
}

-- clearMsgRecvQueue; the counter stays.
unfoldable pub clear_msg_recv_queue : Server → Server
unfolding free_queue
clear_msg_recv_queue s = record s {
  pool = record (s.pool) { msg_recv_queue = [] };
  memory = free_queue s.pool.msg_recv_queue s.memory;
}

-- Which parts are there behind Initialize_subproc: those in front of the first call that fails.
pub record Initialised (k : SubprocCalls) (t : Subproc) (ok : Bool) : Type 0 where
  pub first : t.send_message_queue_mutex ≡ k.init_send_mutex
  pub second : t.connection_mutex ≡ (k.init_send_mutex && k.init_connection_mutex)
  pub third :
      t.recyconnqueue_mutex
      ≡ (k.init_send_mutex && (k.init_connection_mutex && k.init_recyconn_mutex))
  pub fourth :
      t.sem_event_send_queue
      ≡ (k.init_send_mutex && (k.init_connection_mutex && (k.init_recyconn_mutex && k.sem_init)))
  pub succeeds : ok ≡ (
      k.init_send_mutex
      && (k.init_connection_mutex && (k.init_recyconn_mutex && (k.sem_init && k.pthread_create))))

-- Initialize_subproc sets up its three mutexes, its semaphore and its thread in this order and stops at the first call
-- that fails: what is initialised is what was called before it, and true is returned exactly where all succeed.
pub initialize_subproc-Initialised :
    (k : SubprocCalls) → let (t, ok) = initialize_subproc k no_subproc in Initialised k t ok
unfolding initialize_subproc init_semaphore start_recy_thread
initialize_subproc-Initialised k = elim (Bool-cases k.init_send_mutex) [
  | inr e ↦
      rw e (record { first = refl; second = refl; third = refl; fourth = refl; succeeds = refl })
  | inl e ↦ rw e (elim (Bool-cases k.init_connection_mutex) [
    | inr f ↦
        rw f (record { first = refl; second = refl; third = refl; fourth = refl; succeeds = refl })
    | inl f ↦ rw f (elim (Bool-cases k.init_recyconn_mutex) [
      | inr g ↦
          rw g
            (record { first = refl; second = refl; third = refl; fourth = refl; succeeds = refl })
      | inl g ↦ rw g (elim (Bool-cases k.sem_init) [
        | inr h ↦
            rw h
              (record { first = refl; second = refl; third = refl; fourth = refl; succeeds = refl })
        | inl h ↦
            rw h
              (record { first = refl; second = refl; third = refl; fourth = refl; succeeds = refl })
      ])
    ])
  ])
]
