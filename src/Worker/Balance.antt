-- ===== src/Worker/Balance.antt =====
-- Who owns the blocks of messages, through the operations on connections.
use linux_c_study.Prelude.{
  ℕ, ◌+◌, ◌-◌, ◌≤◌, ◌<◌, ◌≡◌, ◌≢◌, refl, sym, ap, subst, ◌∙◌, arith, List, [], ◌∷◌, Option, none,
  some, count, count-append, ℕ_discrete,
}
use linux_c_study.Net.Memory.{Memory, free_memory, count-remove_self, count-remove_ne}
use linux_c_study.Net.Conn.{Msg, Connection, put_one_to_free, free_msg}
use linux_c_study.Net.Socket.{
  Socket, Server, update, ngx_free_connection, in_recy_connect_queue, close_fd, leave_recy_queue,
  recycle, ngx_close_connection,
}
use linux_c_study.Worker.Blocks.{
  owned, conn_blocks, queue_blocks, AllFilled, conn_blocks-same, count-conn_update, update_self,
  update_other,
}
use linux_c_study.Worker.Received.{Tidy}

-- Every live block has one owner: a connection of the pool, the queue, or nobody any more (`lost`). Each entry
-- of the queue is a message; a free connection owns nothing, another one a block while it receives a body.
pub record Balanced (lost : List ℕ) (s : Server) : Type 0 where
  pub accounted :
      (a : ℕ)
      → count a s.memory.live
        ≡ count a (conn_blocks s.socket.conns s.socket.connection_list)
          + (count a (queue_blocks s.pool.msg_recv_queue) + count a lost)
  pub once : (a : ℕ) → count a s.memory.live ≤ 1
  pub fresh : (a : ℕ) → s.memory.next ≤ a → count a s.memory.live ≡ 0
  pub filled : AllFilled s.pool.msg_recv_queue
  pub tidy :
      (p : ℕ)
      → count p s.socket.connection_list ≡ 1
      → count p s.socket.freeconnection_list ≡ 0
      → Tidy (s.socket.conns p)
  pub idle :
      (p : ℕ)
      → 0 < count p s.socket.freeconnection_list
      → (s.socket.conns p).precv_mem_pointer ≡ none
  pub sending : (p : ℕ) → (s.socket.conns p).psend_mem_pointer ≡ none

-- The same connections with the same blocks.
pub record SameHolders (s t : Socket) : Type 0 where
  pub pooled : t.connection_list ≡ s.connection_list
  pub unused : t.freeconnection_list ≡ s.freeconnection_list
  pub block : (q : ℕ) → (t.conns q).precv_mem_pointer ≡ (s.conns q).precv_mem_pointer
  pub state : (q : ℕ) → (t.conns q).cur_stat ≡ (s.conns q).cur_stat
  pub sending : (q : ℕ) → (t.conns q).psend_mem_pointer ≡ (s.conns q).psend_mem_pointer

pub SameHolders-refl : (s : Socket) → SameHolders s s
SameHolders-refl s = record {
  pooled = refl;
  unused = refl;
  block = λ q. refl;
  state = λ q. refl;
  sending = λ q. refl;
}

pub SameHolders-trans : (s t u : Socket) → SameHolders s t → SameHolders t u → SameHolders s u
SameHolders-trans s t u a b = record {
  pooled = b.pooled ∙ a.pooled;
  unused = b.unused ∙ a.unused;
  block = λ q. b.block q ∙ a.block q;
  state = λ q. b.state q ∙ a.state q;
  sending = λ q. b.sending q ∙ a.sending q;
}

pub same-Balanced :
    (lost : List ℕ) (s : Server) (k : Socket)
    → SameHolders s.socket k
    → Balanced lost s
    → Balanced lost (record s { socket = k })
same-Balanced lost s k e b = record {
  accounted = λ a.
      rw (e.pooled, conn_blocks-same s.socket.conns k.conns s.socket.connection_list e.block)
        (b.accounted a);
  once = b.once;
  fresh = b.fresh;
  filled = b.filled;
  tidy = λ p h f.
      rw (e.block p, e.state p)
        (b.tidy p (subst (λ xs. count p xs ≡ 1) e.pooled h)
          (subst (λ xs. count p xs ≡ 0) e.unused f));
  idle = λ p h. e.block p ∙ b.idle p (subst (λ xs. 0 < count p xs) e.unused h);
  sending = λ p. e.sending p ∙ b.sending p;
}

-- What a write that keeps a part of the connection keeps everywhere.
pub update-part {ℓ} :
    {A : Type ℓ} (f : Connection → A) (conns : ℕ → Connection) (p : ℕ) (c : Connection) (q : ℕ)
    → f c ≡ f (conns p)
    → f (update conns p c q) ≡ f (conns q)
update-part f conns p c q e = elim (ℕ_discrete p q) [
  | yes h ↦ subst (λ x. f (update conns p c x) ≡ f (conns x)) h (ap f (update_self conns p c) ∙ e)
  | no n ↦ ap f (update_other conns p q c n)
]

-- A write to a connection that keeps its block, its receive state and what it sends.
pub write-SameHolders :
    (s t : Socket) (p : ℕ) (c : Connection)
    → t.conns ≡ update s.conns p c
    → t.connection_list ≡ s.connection_list
    → t.freeconnection_list ≡ s.freeconnection_list
    → c.precv_mem_pointer ≡ (s.conns p).precv_mem_pointer
    → c.cur_stat ≡ (s.conns p).cur_stat
    → c.psend_mem_pointer ≡ (s.conns p).psend_mem_pointer
    → SameHolders s t
write-SameHolders s t p c e l f b st se = record {
  pooled = l;
  unused = f;
  block = λ q. rw e (update-part (λ (d : Connection). d.precv_mem_pointer) s.conns p c q b);
  state = λ q. rw e (update-part (λ (d : Connection). d.cur_stat) s.conns p c q st);
  sending = λ q. rw e (update-part (λ (d : Connection). d.psend_mem_pointer) s.conns p c q se);
}

pub count-free_msg :
    (a : ℕ) (o : Option Msg) (m : Memory)
    → count a (free_msg o m).live ≡ count a m.live - count a (owned o)
unfolding free_msg free_memory
count-free_msg a none m = omega arith
count-free_msg a (some b) m = elim (ℕ_discrete a b.addr) [
  | yes e ↦ rw e (ground (arith, count-remove_self b.addr m.live))
  | no n ↦ ground (arith, n, count-remove_ne a b.addr m.live n)
]

next-free_msg : (o : Option Msg) (m : Memory) → (free_msg o m).next ≡ m.next
unfolding free_msg free_memory
next-free_msg none m = refl
next-free_msg (some b) m = refl

-- The memory that PutOneToFree leaves, where nothing is being sent.
count-put :
    (a : ℕ) (c : Connection) (m : Memory)
    → c.psend_mem_pointer ≡ none
    → count a (put_one_to_free c m).1.live ≡ count a m.live - count a (owned c.precv_mem_pointer)
unfolding put_one_to_free
count-put a c m e = rw (e, free_msg) (count-free_msg a c.precv_mem_pointer m)

next-put : (c : Connection) (m : Memory) → (put_one_to_free c m).1.next ≡ m.next
unfolding put_one_to_free
next-put c m = next-free_msg c.psend_mem_pointer _ ∙ next-free_msg c.precv_mem_pointer m

pub free-Balanced :
    (lost : List ℕ) (p : ℕ) (s : Server)
    → Balanced lost s
    → count p s.socket.connection_list ≡ 1
    → Balanced lost (ngx_free_connection p s)
unfolding ngx_free_connection put_one_to_free
free-Balanced lost p s b h = record {
  accounted = λ a. omega (
    arith,
    live a,
    b.accounted a,
    count-conn_update a s.socket.conns p put s.socket.connection_list h,
  );
  once = λ a. omega (arith, live a, b.once a);
  fresh = λ a le.
      omega (arith, live a, b.fresh a (omega (arith, le, next-put (s.socket.conns p) s.memory)));
  filled = b.filled;
  tidy = λ q u f.
      let n : p ≢ q =
        λ e. absurd (ground (arith, f, e, count-append q s.socket.freeconnection_list (p ∷ []))) in
      subst Tidy (sym (update_other s.socket.conns p q put n))
        (b.tidy q u (omega (arith, f, count-append q s.socket.freeconnection_list (p ∷ []))));
  idle = λ q u. elim (ℕ_discrete p q) [
    | yes e ↦
        subst (λ x. (update s.socket.conns p put x).precv_mem_pointer ≡ none) e
          (ap (λ (c : Connection). c.precv_mem_pointer) (update_self s.socket.conns p put))
    | no n ↦
        ap (λ (c : Connection). c.precv_mem_pointer) (update_other s.socket.conns p q put n)
        ∙ b.idle q (ground (arith, u, n, count-append q s.socket.freeconnection_list (p ∷ [])))
  ];
  sending = λ q.
      update-part (λ (c : Connection). c.psend_mem_pointer) s.socket.conns p put q
        (sym (b.sending p))
      ∙ b.sending q;
}
  where
    put : Connection
    put = (put_one_to_free (s.socket.conns p) s.memory).0

    live :
        (a : ℕ)
        → count a (put_one_to_free (s.socket.conns p) s.memory).1.live
          ≡ count a s.memory.live - count a (owned ((s.socket.conns p).precv_mem_pointer))
    live a = count-put a (s.socket.conns p) s.memory (b.sending p)

-- The queue for recycling keeps the blocks where they are.
pub in_recy-SameHolders : (now p : ℕ) (s : Socket) → SameHolders s (in_recy_connect_queue now p s)
unfolding in_recy_connect_queue
in_recy-SameHolders now p s = write-SameHolders s _ p _ refl refl refl refl refl refl

pub close_fd-SameHolders : (fd : ℕ) (s : Socket) → SameHolders s (close_fd fd s)
unfolding close_fd
close_fd-SameHolders fd s = record {
  pooled = refl;
  unused = refl;
  block = λ q. refl;
  state = λ q. refl;
  sending = λ q. refl;
}

pub close-Balanced :
    (lost : List ℕ) (p : ℕ) (s : Server)
    → Balanced lost s
    → count p s.socket.connection_list ≡ 1
    → Balanced lost (ngx_close_connection p s)
unfolding ngx_close_connection
close-Balanced lost p s b h =
    same-Balanced lost (ngx_free_connection p s) _ (close_fd-SameHolders _ _)
      (free-Balanced lost p s b h)

pub recycle-Balanced :
    (lost : List ℕ) (p : ℕ) (s : Server)
    → Balanced lost s
    → count p s.socket.connection_list ≡ 1
    → Balanced lost (recycle p s)
unfolding recycle leave_recy_queue
recycle-Balanced lost p s b h =
    free-Balanced lost p (leave_recy_queue p s)
      (same-Balanced lost s _
        (record {
          pooled = refl;
          unused = refl;
          block = λ q. refl;
          state = λ q. refl;
          sending = λ q. refl;
        })
        b)
      h
