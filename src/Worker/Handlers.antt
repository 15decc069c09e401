-- ===== src/Worker/Handlers.antt =====
-- Who owns the blocks of messages, through the handlers of the event loop.
use linux_c_study.Prelude.{
  ℕ, ◌+◌, ◌≡◌, ◌≢◌, ◌⊎◌, ◌≤◌, inl, inr, refl, sym, ap, subst, ◌∙◌, arith, List, [], ◌∷◌, Option,
  none, some, count, count-append, ◌==◌, ℕ_discrete, Option-cases, Bool, Bool-cases, ◌||◌,
  if◌then◌else◌,
}
use linux_c_study.Net.Memory.{Memory, alloc_memory}
use linux_c_study.Net.Conn.{Connection, get_one_to_use}
use linux_c_study.Net.Socket.{
  Socket, Server, update, close_fd, take_connection, ngx_get_connection, new_connection,
}
use linux_c_study.Net.Socket.Invariant.{IsValid, InUse}
use linux_c_study.Net.Recv.{Rx, receive}
use linux_c_study.Net.Request.{
  RecvResult, received, recv_error, recvproc, drop_client, receive_at, ngx_wait_request_handler,
  eagain, eintr,
}
use linux_c_study.Worker.Blocks.{
  owned, conn_blocks-other, count-conn_update, count-conn_append, update_self, update_other,
}
use linux_c_study.Worker.Received.{Tidy, Moves, receive-Handled}
use linux_c_study.Worker.Balance.{
  Balanced, SameHolders, SameHolders-refl, SameHolders-trans, same-Balanced, in_recy-SameHolders,
  close_fd-SameHolders,
}

-- A part of a connection, behind a write to the one at p.
pub part {ℓ} :
    (P : Connection → Type ℓ) (conns : ℕ → Connection) (p q : ℕ) (c : Connection)
    → P c
    → (p ≢ q → P (conns q))
    → P (update conns p c q)
part P conns p q c here there = elim (ℕ_discrete p q) [
  | yes e ↦ subst (λ x. P (update conns p c x)) e (subst P (sym (update_self conns p c)) here)
  | no n ↦ subst P (sym (update_other conns p q c n)) (there n)
]

take-Balanced :
    (lost free : List ℕ) (isock : ℕ) (s : Server)
    → s.socket.freeconnection_list ≡ free
    → IsValid s.socket
    → Balanced lost s
    → Balanced lost (record s { socket = (take_connection free isock s.socket).1 })
unfolding take_connection get_one_to_use new_connection
take-Balanced lost [] isock s e v b = record {
  accounted = λ a. omega (
    arith,
    b.accounted a,
    count-conn_append a (update s.socket.conns p c) s.socket.connection_list p,
    ap (count a) (conn_blocks-other s.socket.conns p c s.socket.connection_list new),
    ap (λ (d : Connection). count a (owned d.precv_mem_pointer)) (update_self s.socket.conns p c),
  );
  once = b.once;
  fresh = b.fresh;
  filled = b.filled;
  tidy = λ q u f.
      part Tidy s.socket.conns p q c refl
        (λ n. b.tidy q (ground (arith, n, u, count-append q s.socket.connection_list (p ∷ []))) f);
  idle = λ q u. absurd (ground (arith, u, ap (count q) e));
  sending =
      λ q. part (λ d. d.psend_mem_pointer ≡ none) s.socket.conns p q c refl (λ n. b.sending q);
}
  where
    p : ℕ
    p = s.socket.next_conn

    c : Connection
    c = record (get_one_to_use new_connection) { fd = isock }

    new : count p s.socket.connection_list ≡ 0
    new = v.fresh p (omega arith)
take-Balanced lost (p ∷ rest) isock s e v b = record {
  accounted = λ a. omega (
    arith,
    b.accounted a,
    count-conn_update a s.socket.conns p c s.socket.connection_list pooled,
    ap (λ o. count a (owned o)) (b.idle p (omega (arith, was_free))),
  );
  once = b.once;
  fresh = b.fresh;
  filled = b.filled;
  tidy = λ q u f.
      part Tidy s.socket.conns p q c refl (λ n. b.tidy q u (ground (arith, n, f, ap (count q) e)));
  idle = λ q u.
      part (λ d. d.precv_mem_pointer ≡ none) s.socket.conns p q c refl
        (λ n. b.idle q (ground (arith, n, u, ap (count q) e)));
  sending =
      λ q. part (λ d. d.psend_mem_pointer ≡ none) s.socket.conns p q c refl (λ n. b.sending q);
}
  where
    c : Connection
    c = record (get_one_to_use (s.socket.conns p)) { fd = isock }

    was_free : count p s.socket.freeconnection_list ≡ 1 + count p rest
    was_free = ground (arith, ap (count p) e)

    pooled : count p s.socket.connection_list ≡ 1
    pooled = omega (arith, was_free, v.known p, v.once p)

pub get-Balanced :
    (lost : List ℕ) (isock : ℕ) (s : Server)
    → IsValid s.socket
    → Balanced lost s
    → Balanced lost (record s { socket = (ngx_get_connection isock s.socket).1 })
unfolding ngx_get_connection
get-Balanced lost isock s v b = take-Balanced lost s.socket.freeconnection_list isock s refl v b

-- A memory that is the same, or has one block more.
kept_memory :
    (m n : Memory) (a : ℕ)
    → (n ≡ m) ⊎ (n ≡ (alloc_memory m).1)
    → ((c : ℕ) → count c m.live ≤ 1)
    → ((c : ℕ) → m.next ≤ c → count c m.live ≡ 0)
    → (count a n.live ≤ 1) × (n.next ≤ a → count a n.live ≡ 0)
unfolding alloc_memory
kept_memory m n a (inl e) o f = rw e (o a, f a)
kept_memory m n a (inr e) o f =
    rw e (ground (arith, o a, f m.next (omega arith)), λ h. ground (arith, f a, h))

receive_at-Balanced :
    (lost : List ℕ) (p : ℕ) (fill : ℕ → ℕ) (now : ℕ) (bytes : List ℕ) (s : Server)
    → InUse s.socket p
    → Balanced lost s
    → Balanced lost (receive_at p fill now bytes s)
unfolding receive_at alloc_memory
receive_at-Balanced lost p fill now bytes s u b = record {
  accounted = λ a. omega (
    arith,
    b.accounted a,
    m.accounted a,
    count-conn_update a s.socket.conns p y.conn s.socket.connection_list u.pooled,
  );
  once = λ a. (kept a).0;
  fresh = λ a h. (kept a).1 h;
  filled = m.filled b.filled;
  tidy = λ q w f. part Tidy s.socket.conns p q y.conn t (λ n. b.tidy q w f);
  idle = λ q w.
      let n : p ≢ q = λ e. absurd (ground (arith, w, e, u.not_free)) in
      subst (λ (d : Connection). d.precv_mem_pointer ≡ none)
        (sym (update_other s.socket.conns p q y.conn n)) (b.idle q w);
  sending = λ q.
      part (λ d. d.psend_mem_pointer ≡ none) s.socket.conns p q y.conn (m.sending ∙ b.sending p)
        (λ n. b.sending q);
}
  where
    x : Rx
    x = record { conn = s.socket.conns p; memory = s.memory; pool = s.pool }

    y : Rx
    y = receive p fill now bytes x

    m : Moves x y
    m = (receive-Handled p fill now bytes x (b.tidy p u.pooled u.not_free)).0

    t : Tidy y.conn
    t = (receive-Handled p fill now bytes x (b.tidy p u.pooled u.not_free)).1

    kept : (a : ℕ) → (count a y.memory.live ≤ 1) × (y.memory.next ≤ a → count a y.memory.live ≡ 0)
    kept a = kept_memory s.memory y.memory a m.memory b.once b.fresh

drop_client-SameHolders : (now p : ℕ) (s : Socket) → SameHolders s (drop_client now p s)
unfolding drop_client
drop_client-SameHolders now p s =
    SameHolders-trans s _ _ (close_fd-SameHolders ((s.conns p).fd) s)
      (in_recy-SameHolders now p (close_fd ((s.conns p).fd) s))

-- Where bytes came, nothing changed; else the client may be gone.
recvproc-some :
    (now p : ℕ) (r : RecvResult) (s : Socket) (bytes : List ℕ)
    → (recvproc now p r s).0 ≡ some bytes
    → (recvproc now p r s).1 ≡ s
unfolding recvproc
recvproc-some now p (received []) s bytes e = absurd cc
recvproc-some now p (received (c ∷ cs)) s bytes e = refl
recvproc-some now p (recv_error errno) s bytes e =
    elim (Bool-cases (errno == eagain || errno == eintr)) [
      | inl f ↦ rw f refl
      | inr f ↦
          let r : Bool → Option (List ℕ) × Socket =
            λ b. if b then (none, s) else (none, drop_client now p s) in
          let g : none ≡ some bytes = sym (ap (λ b. (r b).0) f) ∙ e in absurd cc
    ]

recvproc-SameHolders :
    (now p : ℕ) (r : RecvResult) (s : Socket) → SameHolders s (recvproc now p r s).1
unfolding recvproc
recvproc-SameHolders now p (received []) s = drop_client-SameHolders now p s
recvproc-SameHolders now p (received (b ∷ bs)) s = SameHolders-refl s
recvproc-SameHolders now p (recv_error errno) s =
    elim (Bool-cases (errno == eagain || errno == eintr)) [
      | inl f ↦ rw f (SameHolders-refl s)
      | inr f ↦ rw f (drop_client-SameHolders now p s)
    ]

pub wait-Balanced :
    (lost : List ℕ) (fill : ℕ → ℕ) (now p : ℕ) (r : RecvResult) (s : Server)
    → InUse s.socket p
    → Balanced lost s
    → Balanced lost (ngx_wait_request_handler fill now r p s)
unfolding ngx_wait_request_handler
wait-Balanced lost fill now p r s u b =
    let b' = same-Balanced lost s _ (recvproc-SameHolders now p r s.socket) b in
    elim (Option-cases ((recvproc now p r s.socket).0)) [
      | inl e ↦ rw (e, ngx_wait_request_handler) b'
      | inr (bytes, e) ↦
          rw (e, ngx_wait_request_handler)
            (receive_at-Balanced lost p fill now bytes _
              (subst (λ k. InUse k p) (sym (recvproc-some now p r s.socket bytes e)) u) b')
    ]
