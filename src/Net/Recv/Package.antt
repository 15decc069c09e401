-- ===== src/Net/Recv/Package.antt =====
-- A complete header (ngx_wait_request_handler_proc_p1) and a complete package (..._proc_plast), against
-- the stream's packages.
use mathlib.Core.List.{map-append}
use linux_c_study.Prelude.{
  ℕ, ◌+◌, ◌-◌, ◌≤◌, ◌≡◌, refl, sym, ap, ◌∙◌, inl, inr, List, [], ◌∷◌, ◌++◌, none, some, map, arith,
  ltb, ◌==◌, ==_iff, ==-false, ltb-false, take_all, ◌≢◌, Bool-cases, length, take, length-take,
  length-drop, append-nil, drop, if◌then◌else◌, bytes_from, length-bytes_from, take-splice,
  length-splice,
}
use linux_c_study.Net.Memory.{contents}
use linux_c_study.Net.Conn.{
  pkg_bd_init, in_mem, Msg, Connection, len_msg_header, pkg_max_length, len_pkg_header, pkg_len,
}
use linux_c_study.Net.Recv.{
  Rx, expect_header, ngx_wait_request_handler_proc_plast, ngx_wait_request_handler_proc_p1, new_msg,
}
use linux_c_study.Net.Recv.Stream.{judge}
use linux_c_study.Net.Recv.Holds.{Holds, no_byte, at_body, queued}
use linux_c_study.Threads.{ThreadPool, in_msg_recv_queue_and_signal, queue-in_msg}

-- From `s` to `t` the packages `out` were queued, and the connection is left with the bytes `acc`.
pub record Got (me : ℕ) (s t : Rx) (r : List ℕ × List (List ℕ)) : Type 0 where
  pub holds : Holds me t.conn r.0
  pub queue : queued t.pool ≡ queued s.pool ++ map some r.1

expect_header-Holds :
    (me : ℕ) (c : Connection)
    → length c.data_head_info ≡ 20
    → c.precv_mem_pointer ≡ none
    → Holds me (expect_header c) []
unfolding expect_header
expect_header-Holds me c size block = no_byte refl (record {
  bytes = refl;
  size = size;
  pointer = refl;
  rest = omega arith;
  more = omega arith;
  block = block;
})

queued-in_msg :
    (now : ℕ) (b : Msg) (p : ThreadPool)
    → queued (in_msg_recv_queue_and_signal now (some b) p) ≡ queued p ++ some b.pkg ∷ []
queued-in_msg now b p = rw (queue-in_msg now (some b) p) (map-append _ _ _)

-- A complete block goes to the queue.
pub plast-Got :
    (me now : ℕ) (s : Rx) (b : Msg)
    → length s.conn.data_head_info ≡ 20
    → s.conn.precv_mem_pointer ≡ some b
    → Got me s (ngx_wait_request_handler_proc_plast now s) ([], b.pkg ∷ [])
unfolding ngx_wait_request_handler_proc_plast
plast-Got me now s b size block = record {
  holds = expect_header-Holds me (record (s.conn) { precv_mem_pointer = none }) size refl;
  queue = rw block (queued-in_msg now b s.pool);
}

pkg_len-take : (xs : List ℕ) → pkg_len (take len_pkg_header xs) ≡ pkg_len xs
pkg_len-take [] = refl
pkg_len-take (a ∷ []) = refl
pkg_len-take (a ∷ b ∷ xs) = refl

judge-header :
    (acc : List ℕ)
    → length acc ≡ len_pkg_header
    → judge acc ≡ (
        if ltb (pkg_len acc) len_pkg_header
        then ([], [])
        else if ltb (pkg_max_length - 1000) (pkg_len acc)
        then ([], [])
        else if pkg_len acc == len_pkg_header
        then ([], acc ∷ [])
        else (acc, []))
unfolding judge
judge-header acc h = ground arith

-- The new block holds the header, and is as long as the header says.
new_msg-holds :
    (me : ℕ) (fill : ℕ → ℕ) (addr : ℕ) (c : Connection) (n : ℕ)
    → length c.data_head_info ≡ 20
    → len_pkg_header ≤ n
    → (take len_pkg_header (new_msg me n fill addr c).pkg ≡ take len_pkg_header c.data_head_info)
      × (length (new_msg me n fill addr c).pkg ≡ n)
unfolding new_msg contents
new_msg-holds me fill addr c n size h =
    let fresh = drop len_msg_header (bytes_from (len_msg_header + n) 0 fill) in
    let hdr = take len_pkg_header c.data_head_info in
    let len_fresh : length fresh ≡ n = omega (
      arith,
      length-drop len_msg_header (bytes_from (len_msg_header + n) 0 fill),
      length-bytes_from (len_msg_header + n) 0 fill,
    ) in
    let len_hdr : length hdr ≡ 8 = omega (arith, length-take len_pkg_header c.data_head_info) in
    (
      take-splice fresh 0 len_pkg_header hdr (omega arith) (omega arith),
      length-splice fresh 0 hdr (omega arith) ∙ len_fresh,
    )

-- A header is complete in `dataHeadInfo`.
module _ (me now : ℕ) (fill : ℕ → ℕ) (s : Rx) (acc : List ℕ)
    (size : length s.conn.data_head_info ≡ 20)
    (bytes : take len_pkg_header s.conn.data_head_info ≡ acc)
    (block : s.conn.precv_mem_pointer ≡ none) where
  abbrev n : ℕ
  n = pkg_len s.conn.data_head_info

  len_acc : length acc ≡ len_pkg_header
  len_acc = sym (ap length bytes) ∙ omega (arith, length-take 8 s.conn.data_head_info)

  len_eq : pkg_len acc ≡ n
  len_eq = ap pkg_len (sym bytes) ∙ pkg_len-take s.conn.data_head_info

  abbrev b : Msg
  b = new_msg me n fill s.memory.next s.conn

  b_holds : len_pkg_header ≤ n → (take len_pkg_header b.pkg ≡ acc) × (length b.pkg ≡ n)
  b_holds h = let p = new_msg-holds me fill s.memory.next s.conn n size h in (p.0 ∙ bytes, p.1)

  completed :
      n ≡ len_pkg_header
      → Got me s
          (ngx_wait_request_handler_proc_plast now (record s {
            conn = record (s.conn) { precv_mem_pointer = some b };
            memory = record { next = s.memory.next + 1; live = s.memory.next ∷ s.memory.live };
          }))
          ([], acc ∷ [])
  unfolding ngx_wait_request_handler_proc_plast
  completed h =
      let g =
        plast-Got me now (record s { conn = record (s.conn) { precv_mem_pointer = some b } }) b size
          refl in
      let e : b.pkg ≡ acc =
        sym (take_all len_pkg_header b.pkg (omega (arith, (b_holds (omega arith)).1)))
        ∙ (b_holds (omega arith)).0 in
      record { holds = g.holds; queue = g.queue ∙ ap (λ x. queued s.pool ++ some x ∷ []) e }

  started :
      len_pkg_header ≤ n
      → n ≤ pkg_max_length - 1000
      → n ≢ len_pkg_header
      → Got me s
          (record s {
            conn = record (s.conn) {
              cur_stat = pkg_bd_init;
              precvbuf = in_mem len_pkg_header;
              irecvlen = n - len_pkg_header;
              precv_mem_pointer = some b;
            };
            memory = record { next = s.memory.next + 1; live = s.memory.next ∷ s.memory.live };
          })
          (acc, [])
  unfolding new_msg
  started lo hi h = record {
    holds = at_body b refl (record {
      block = refl;
      bytes = (b_holds lo).0;
      pointer = refl;
      rest = omega (arith, (b_holds lo).1);
      more = omega arith;
      header = omega arith;
      announced = len_eq ∙ sym (b_holds lo).1;
      limit = omega (arith, (b_holds lo).1);
      owner = refl;
      fresh = refl;
      head_size = size;
    });
    queue = sym (append-nil _);
  }

  dropped : Got me s (record s { conn = expect_header s.conn }) ([], [])
  dropped = record { holds = expect_header-Holds me s.conn size block; queue = sym (append-nil _) }

  pub p1-Got : Got me s (ngx_wait_request_handler_proc_p1 me fill now s) (judge acc)
  unfolding ngx_wait_request_handler_proc_p1
  p1-Got =
      rw (judge-header acc len_acc, len_eq)
        (elim (Bool-cases (ltb n len_pkg_header)) [
          | inl short ↦ rw short (dropped)
          | inr t ↦ rw t (elim (Bool-cases (ltb (pkg_max_length - 1000) n)) [
            | inl long ↦ rw long (dropped)
            | inr u ↦ rw u (elim (Bool-cases (n == len_pkg_header)) [
              | inl whole ↦ rw whole (completed ((==_iff _ _).0 whole))
              | inr body ↦ rw body (started (ltb-false _ _ t) (ltb-false _ _ u) (==-false _ _ body))
            ])
          ])
        ])
