-- ===== src/Worker/Received.antt =====
-- ngx_wait_request_handler and the blocks of messages: what it allocates it holds, or hands to the queue.
use linux_c_study.Prelude.{
  ℕ, ◌+◌, ◌≡◌, ◌⊎◌, inl, inr, refl, ap, ◌∙◌, arith, List, Option, none, some, true, false, count,
  ◌-◌, Option-cases, Bool-cases, ltb, ◌==◌, length,
}
use linux_c_study.Net.Memory.{alloc_memory}
use linux_c_study.Net.Conn.{
  PkgState, pkg_hd_init, pkg_hd_recving, pkg_bd_init, pkg_bd_recving, RecvPtr, null, in_head,
  in_mem, Msg, Connection, pkg_max_length, len_pkg_header, pkg_len,
}
use linux_c_study.Threads.{queue-in_msg}
use linux_c_study.Net.Recv.{
  Rx, recv_into, expect_header, keep_receiving, ngx_wait_request_handler_proc_plast,
  ngx_wait_request_handler_proc_p1, on_received, receive, new_msg,
}
use linux_c_study.Worker.Blocks.{
  owned, has_block, in_body, queue_blocks, AllFilled, count-queue_append, AllFilled-append,
}

-- The blocks behind a change of a connection, the memory and the queue: none is lost, and none has two owners.
pub record Moves (x y : Rx) : Type 0 where
  pub accounted :
      (a : ℕ)
      → count a y.memory.live
          + (count a (owned x.conn.precv_mem_pointer)
              + count a (queue_blocks x.pool.msg_recv_queue))
        ≡ count a x.memory.live
          + (count a (owned y.conn.precv_mem_pointer)
              + count a (queue_blocks y.pool.msg_recv_queue))
  pub memory : (y.memory ≡ x.memory) ⊎ (y.memory ≡ (alloc_memory x.memory).1)
  pub filled : AllFilled x.pool.msg_recv_queue → AllFilled y.pool.msg_recv_queue
  pub sending : y.conn.psend_mem_pointer ≡ x.conn.psend_mem_pointer

-- The connection holds a block exactly while it receives a body.
abbrev pub Tidy : Connection → Type 0
Tidy c = has_block c.precv_mem_pointer ≡ in_body c.cur_stat

plast-Moves :
    (now : ℕ) (x : Rx)
    → has_block x.conn.precv_mem_pointer ≡ true
    → Moves x (ngx_wait_request_handler_proc_plast now x)
      × Tidy (ngx_wait_request_handler_proc_plast now x).conn
unfolding ngx_wait_request_handler_proc_plast expect_header
plast-Moves now x h = (
  record {
    accounted = λ a.
        rw (queue-in_msg now x.conn.precv_mem_pointer x.pool)
          (omega (arith, count-queue_append a x.conn.precv_mem_pointer x.pool.msg_recv_queue));
    memory = inl refl;
    filled = λ f. rw (queue-in_msg now x.conn.precv_mem_pointer x.pool) (AllFilled-append _ _ h f);
    sending = refl;
  },
  refl,
)

abbrev Handled : Rx → Rx → Type 0
Handled x y = Moves x y × Tidy y.conn

-- The memory and the queue stay, and so does the connection's block.
still :
    (x : Rx) (c : Connection)
    → c.precv_mem_pointer ≡ x.conn.precv_mem_pointer
    → c.psend_mem_pointer ≡ x.conn.psend_mem_pointer
    → Moves x (record x { conn = c })
still x c e f = record {
  accounted = λ a. omega (arith, ap (λ o. count a (owned o)) e);
  memory = inl refl;
  filled = λ g. g;
  sending = f;
}

-- A new block in an empty hand.
taken :
    (x : Rx) (c : Connection) (b : Msg)
    → x.conn.precv_mem_pointer ≡ none
    → c.precv_mem_pointer ≡ some b
    → b.addr ≡ x.memory.next
    → c.psend_mem_pointer ≡ x.conn.psend_mem_pointer
    → Moves x (record x { conn = c; memory = (alloc_memory x.memory).1 })
unfolding alloc_memory
taken x c b e g n f = record {
  accounted = λ a. ground (arith, ap (λ o. count a (owned o)) e, ap (λ o. count a (owned o)) g, n);
  memory = inr refl;
  filled = λ h. h;
  sending = f;
}

then_plast :
    (now : ℕ) (x y : Rx)
    → Moves x y
    → has_block y.conn.precv_mem_pointer ≡ true
    → Handled x (ngx_wait_request_handler_proc_plast now y)
unfolding ngx_wait_request_handler_proc_plast expect_header
then_plast now x y m h =
    let (p, t) = plast-Moves now y h in
    (
      record {
        accounted = λ a. omega (arith, m.accounted a, p.accounted a);
        memory = m.memory;
        filled = λ f. p.filled (m.filled f);
        sending = m.sending;
      },
      t,
    )

-- A header came: its block is allocated where the announced length is allowed.
p1-Handled :
    (me : ℕ) (fill : ℕ → ℕ) (now : ℕ) (x : Rx)
    → x.conn.precv_mem_pointer ≡ none
    → Handled x (ngx_wait_request_handler_proc_p1 me fill now x)
unfolding ngx_wait_request_handler_proc_p1 expect_header alloc_memory new_msg
p1-Handled me fill now x e =
    elim (Bool-cases (ltb (pkg_len x.conn.data_head_info) len_pkg_header)) [
      | inl short ↦ rw short dropped
      | inr t ↦
          rw t (elim (Bool-cases (ltb (pkg_max_length - 1000) (pkg_len x.conn.data_head_info))) [
            | inl long ↦ rw long dropped
            | inr u ↦ rw u (elim (Bool-cases (pkg_len x.conn.data_head_info == len_pkg_header)) [
              | inl whole ↦ rw whole (
                  then_plast now x (record x { conn = conn'; memory = (alloc_memory x.memory).1 })
                    (taken x conn' _ e refl refl refl) refl)
              | inr body ↦ rw body (taken x _ _ e refl refl refl, refl)
            ])
          ])
    ]
  where
    conn' : Connection
    conn' = record (x.conn) {
      precv_mem_pointer =
          some (new_msg me (pkg_len x.conn.data_head_info) fill (alloc_memory x.memory).0 x.conn);
    }

    dropped : Handled x (record x { conn = expect_header x.conn })
    dropped = (still x _ refl refl, ap has_block e)

-- Writing the bytes that came changes no owner.
record SameHold (c d : Connection) : Type 0 where
  block : owned d.precv_mem_pointer ≡ owned c.precv_mem_pointer
  has : has_block d.precv_mem_pointer ≡ has_block c.precv_mem_pointer
  sending : d.psend_mem_pointer ≡ c.psend_mem_pointer

recv_into-SameHold :
    (p : RecvPtr) (bytes : List ℕ) (c : Connection) → SameHold c (recv_into p bytes c)
unfolding recv_into
recv_into-SameHold null bytes c = record { block = refl; has = refl; sending = refl }
recv_into-SameHold (in_head k) bytes c = record { block = refl; has = refl; sending = refl }
recv_into-SameHold (in_mem k) bytes c = elim (Option-cases c.precv_mem_pointer) [
  | inl e ↦ record { block = rw e refl; has = rw e refl; sending = refl }
  | inr (b, e) ↦ record { block = rw e refl; has = rw e refl; sending = refl }
]

has_block-none : (o : Option Msg) → has_block o ≡ false → o ≡ none
has_block-none none e = refl
has_block-none (some b) e = absurd cc

on_received-Handled :
    (st : PkgState) (me : ℕ) (fill : ℕ → ℕ) (now reco : ℕ) (x : Rx)
    → has_block x.conn.precv_mem_pointer ≡ in_body st
    → Handled x (on_received st me fill now reco x)
unfolding on_received keep_receiving
on_received-Handled pkg_hd_init me fill now reco x h = elim (Bool-cases (reco == len_pkg_header)) [
  | inl e ↦ rw e (p1-Handled me fill now x (has_block-none _ h))
  | inr e ↦ rw e (still x _ refl refl, h)
]
on_received-Handled pkg_hd_recving me fill now reco x h =
    elim (Bool-cases (x.conn.irecvlen == reco)) [
      | inl e ↦ rw e (p1-Handled me fill now x (has_block-none _ h))
      | inr e ↦ rw e (still x _ refl refl, h)
    ]
on_received-Handled pkg_bd_init me fill now reco x h = elim (Bool-cases (reco == x.conn.irecvlen)) [
  | inl e ↦ rw e (plast-Moves now x h)
  | inr e ↦ rw e (still x _ refl refl, h)
]
on_received-Handled pkg_bd_recving me fill now reco x h =
    elim (Bool-cases (x.conn.irecvlen == reco)) [
      | inl e ↦ rw e (plast-Moves now x h)
      | inr e ↦ rw e (still x _ refl refl, h)
    ]

pub receive-Handled :
    (me : ℕ) (fill : ℕ → ℕ) (now : ℕ) (bytes : List ℕ) (x : Rx)
    → Tidy x.conn
    → Moves x (receive me fill now bytes x) × Tidy (receive me fill now bytes x).conn
unfolding receive
receive-Handled me fill now bytes x t =
    let s = recv_into-SameHold x.conn.precvbuf bytes x.conn in
    let (m, u) =
      on_received-Handled x.conn.cur_stat me fill now (length bytes)
        (record x { conn = recv_into x.conn.precvbuf bytes x.conn }) (s.has ∙ t) in
    (
      record {
        accounted = λ a. omega (arith, m.accounted a, ap (count a) s.block);
        memory = m.memory;
        filled = m.filled;
        sending = m.sending ∙ s.sending;
      },
      u,
    )
