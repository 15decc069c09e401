-- ===== src/Logic/Stale.antt =====
-- A message that still waits when its client goes away.
use linux_c_study.Prelude.{
  ℕ, ◌^◌, ◌<◌, ◌≡◌, ◌≢◌, refl, ap, ◌⊎◌, length, length-append, inl, inr, List, [], ◌∷◌, ◌++◌, none,
  Bool, arith, ◌==◌, ==_iff, Bool-cases, Option-cases, inc64,
}
use linux_c_study.Net.Conn.{Connection, Msg, get_one_to_use, put_one_to_free}
use linux_c_study.Net.Socket.{
  Socket, Server, in_recy_connect_queue, close_fd, take_connection, ngx_get_connection,
  ngx_free_connection, leave_recy_queue, recycle,
}
use linux_c_study.Net.Request.{received, drop_client, recvproc, ngx_wait_request_handler}
use linux_c_study.Logic.{check_crc, select_command, thread_recv_proc_func}

abbrev number : Server → ℕ → ℕ
number s p = (s.socket.conns p).i_currsequence

select_command-stale :
    (conns : ℕ → Connection) (m : Msg)
    → (conns m.p_conn).i_currsequence ≢ m.i_currsequence
    → select_command conns m ≡ none
unfolding select_command
select_command-stale conns m n = elim (Option-cases (check_crc m.pkg)) [
  | inl e ↦ rw (select_command, e)
  | inr (b, e) ↦ elim (Bool-cases ((conns m.p_conn).i_currsequence == m.i_currsequence)) [
    | inl f ↦ absurd (n ((==_iff _ _).0 f))
    | inr f ↦ rw (select_command, e, f)
  ]
]

ignored :
    (fill : ℕ → ℕ) (ctl : ℕ → Bool) (m : Msg) (s : Server)
    → number s m.p_conn ≢ m.i_currsequence
    → thread_recv_proc_func fill ctl m s ≡ s
unfolding thread_recv_proc_func
ignored fill ctl m s n = rw (thread_recv_proc_func, select_command-stale s.socket.conns m n)

number-wait :
    (fill : ℕ → ℕ) (now p : ℕ) (s : Server)
    → number (ngx_wait_request_handler fill now (received []) p s) p ≡ inc64 (number s p)
unfolding ngx_wait_request_handler recvproc drop_client in_recy_connect_queue close_fd
number-wait fill now p s = ground arith

number-recycle : (p : ℕ) (s : Server) → number (recycle p s) p ≡ inc64 (number s p)
unfolding recycle ngx_free_connection leave_recy_queue put_one_to_free
number-recycle p s = ground arith

-- The server when another client's connection was taken from the pool.
abbrev pub accept_next : ℕ → Server → Server
accept_next isock s = record s { socket = (ngx_get_connection isock s.socket).1 }

number-take :
    (isock p : ℕ) (free : List ℕ) (s : Socket)
    → 0 < length free
    → let n = (s.conns p).i_currsequence in
      let n' = ((take_connection free isock s).1.conns p).i_currsequence in
      (n' ≡ n) ⊎ (n' ≡ inc64 n)
unfolding take_connection get_one_to_use
number-take isock p [] s h = absurd (omega arith)
number-take isock p (q ∷ free) s h = elim (Bool-cases (q == p)) [
  | inl e ↦ rw e (inr (ground arith))
  | inr e ↦ rw e (inl refl)
]

number-accept :
    (isock p : ℕ) (s : Server)
    → 0 < length s.socket.freeconnection_list
    → (number (accept_next isock s) p ≡ number s p)
      ⊎ (number (accept_next isock s) p ≡ inc64 (number s p))
unfolding ngx_get_connection
number-accept isock p s h = number-take isock p s.socket.freeconnection_list s.socket h

recycle-free :
    (p : ℕ) (s : Server)
    → (recycle p s).socket.freeconnection_list ≡ s.socket.freeconnection_list ++ p ∷ []
unfolding recycle ngx_free_connection leave_recy_queue
recycle-free p s = refl

-- A message with the present number of its connection, below 2 ^ 64, that waits in the queue while the client
-- closes does nothing when a pool thread comes to it: neither behind the close, nor when the connection has
-- been freed, nor when it, or another, has been taken for the next client.
pub thread_recv_proc_func-stale :
    (fill : ℕ → ℕ) (ctl : ℕ → Bool) (now isock : ℕ) (m : Msg) (s : Server)
    → m.i_currsequence ≡ (s.socket.conns m.p_conn).i_currsequence
    → m.i_currsequence < 2 ^ 64
    → let closed = ngx_wait_request_handler fill now (received []) m.p_conn s in
      let freed = recycle m.p_conn closed in
      let reused = accept_next isock freed in
      (thread_recv_proc_func fill ctl m closed ≡ closed)
      × (thread_recv_proc_func fill ctl m freed ≡ freed)
      × (thread_recv_proc_func fill ctl m reused ≡ reused)
thread_recv_proc_func-stale fill ctl now isock m s e h = (
  ignored fill ctl m _ (λ f. omega (arith, n1)),
  ignored fill ctl m _ (λ f. omega (arith, n1, n2)),
  ignored fill ctl m _
      (λ f. elim n3 [ inl g ↦ omega (arith, n1, n2, g) | inr g ↦ omega (arith, n1, n2, g) ]),
)
  where
    closed : Server
    closed = ngx_wait_request_handler fill now (received []) m.p_conn s

    n1 : number closed m.p_conn ≡ inc64 (number s m.p_conn)
    n1 = number-wait fill now m.p_conn s

    n2 : number (recycle m.p_conn closed) m.p_conn ≡ inc64 (number closed m.p_conn)
    n2 = number-recycle m.p_conn closed

    n3 :
        (number (accept_next isock (recycle m.p_conn closed)) m.p_conn
          ≡ number (recycle m.p_conn closed) m.p_conn)
        ⊎ (number (accept_next isock (recycle m.p_conn closed)) m.p_conn
            ≡ inc64 (number (recycle m.p_conn closed) m.p_conn))
    n3 = number-accept isock m.p_conn (recycle m.p_conn closed) (
        omega (
          arith,
          ap length (recycle-free m.p_conn closed),
          length-append closed.socket.freeconnection_list (m.p_conn ∷ []),
        ))
