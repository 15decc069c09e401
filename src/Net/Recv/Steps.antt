-- ===== src/Net/Recv/Steps.antt =====
-- The four branches of ngx_wait_request_handler: a header or a body, complete or not.
use linux_c_study.Prelude.{
  ℕ, ◌+◌, ◌<◌, ◌≡◌, refl, sym, ap, subst, ◌∙◌, List, [], ◌∷◌, ◌++◌, some, arith, take_all, length,
  take, splice, append-nil,
}
use linux_c_study.Net.Conn.{
  RecvPtr, pkg_hd_recving, pkg_bd_recving, in_head, in_mem, Msg, Connection, len_pkg_header,
  pkg_len,
}
use linux_c_study.Net.Recv.{
  Rx, keep_receiving, recv_into, write_msg, ngx_wait_request_handler_proc_plast,
  ngx_wait_request_handler_proc_p1,
}
use linux_c_study.Net.Recv.Stream.{
  packages, IsOpen, packages-judge, body-judge, header-IsOpen, body-IsOpen,
}
use linux_c_study.Net.Recv.Holds.{
  HeadHolds, BodyHolds, in_header, in_body, queued, recv_head, recv_body, length-head, length-body,
  keep_header, keep_body,
}
use linux_c_study.Net.Recv.Package.{Got, plast-Got, p1-Got}

recv_into-head :
    (p : RecvPtr) (k : ℕ) (bytes : List ℕ) (c : Connection)
    → p ≡ in_head k
    → recv_into p bytes c ≡ record c { data_head_info = splice c.data_head_info k bytes }
unfolding recv_into
recv_into-head p k bytes c e = rw e

recv_into-mem :
    (p : RecvPtr) (k : ℕ) (b : Msg) (bytes : List ℕ) (c : Connection)
    → p ≡ in_mem k
    → c.precv_mem_pointer ≡ some b
    → recv_into p bytes c
      ≡ record c { precv_mem_pointer = some (record b { pkg = splice b.pkg k bytes }) }
unfolding recv_into
recv_into-mem p k b bytes c e h =
    rw e (ap (λ m. record c { precv_mem_pointer = write_msg m k bytes }) h)

module _ (me : ℕ) (fill : ℕ → ℕ) (now b : ℕ) (bs : List ℕ) (s : Rx) (acc : List ℕ) where
  abbrev pub bytes : List ℕ
  bytes = b ∷ bs

  abbrev pub got : Connection
  got = recv_into s.conn.precvbuf bytes s.conn

  -- The bytes that complete a header.
  pub header_done :
      (k : ℕ)
      → HeadHolds s.conn k acc
      → length bytes ≡ s.conn.irecvlen
      → Got me s
          (ngx_wait_request_handler_proc_p1 me fill now (record s { conn = got }))
          (packages acc bytes)
  header_done k h e =
      let w = recv_head s.conn k acc bytes h (omega arith) in
      let n : k + length bytes ≡ len_pkg_header = omega (arith, h.rest) in
      let g =
        p1-Got me now fill
          (record s {
            conn = record (s.conn) { data_head_info = splice s.conn.data_head_info k bytes };
          })
          (acc ++ bytes) w.1
          (subst (λ j. take j (splice s.conn.data_head_info k bytes) ≡ acc ++ bytes) n w.0)
          h.block in
      rw
        (
          recv_into-head s.conn.precvbuf k bytes s.conn h.pointer,
          packages-judge acc len_pkg_header b bs (header-IsOpen acc)
              (omega (arith, length-head s.conn k acc h, h.rest)),
        )
        (record { holds = g.holds; queue = g.queue })

  -- Fewer bytes.
  pub header_more :
      (k : ℕ)
      → HeadHolds s.conn k acc
      → length bytes < s.conn.irecvlen
      → Got me s
          (record s { conn = keep_receiving pkg_hd_recving (length bytes) got })
          (packages acc bytes)
  unfolding keep_receiving
  header_more k h lt =
      let n : length acc + length bytes < len_pkg_header =
        omega (arith, length-head s.conn k acc h, h.rest) in
      rw
        (
          packages-judge acc len_pkg_header b bs (header-IsOpen acc) (omega arith),
          header-IsOpen acc bytes n,
        )
        (record {
          holds =
              in_header (k + length bytes) refl
                (keep_header s.conn k acc bytes pkg_hd_recving h lt);
          queue = sym (append-nil _);
        })

  module _ (k : ℕ) (m : Msg) (h : BodyHolds me s.conn k m acc) where
    opened : IsOpen acc (pkg_len acc)
    opened =
        body-IsOpen acc (omega (arith, length-body me s.conn k m acc h, h.header))
          (omega (arith, h.announced, h.rest, h.header)) (omega (arith, h.announced, h.limit))

    -- The bytes that complete a body.
    pub body_done :
        length bytes ≡ s.conn.irecvlen
        → Got me s
            (ngx_wait_request_handler_proc_plast now (record s { conn = got }))
            (packages acc bytes)
    body_done e =
        let w = recv_body me s.conn k m acc bytes h (omega arith) in
        let whole : splice m.pkg k bytes ≡ acc ++ bytes =
          sym (take_all (k + length bytes) (splice m.pkg k bytes) (omega (arith, w.1, h.rest)))
          ∙ w.0 in
        let lens = length-body me s.conn k m acc h in
        let m' : Msg = record m { pkg = splice m.pkg k bytes } in
        let g =
          plast-Got me now (record s { conn = record (s.conn) { precv_mem_pointer = some m' } }) m'
            h.head_size refl in
        rw
          (
            recv_into-mem s.conn.precvbuf k m bytes s.conn h.pointer h.block,
            packages-judge acc (pkg_len acc) b bs opened
                (omega (arith, length-body me s.conn k m acc h, h.rest, h.announced)),
            body-judge acc bytes (omega (arith, lens, h.header))
                (omega (arith, h.announced, h.rest, h.header)) (omega (arith, h.announced, h.limit))
                (omega (arith, lens, h.announced, h.rest)),
          )
          (record {
            holds = g.holds;
            queue = g.queue ∙ ap (λ x. queued s.pool ++ some x ∷ []) whole;
          })

    pub body_more :
        length bytes < s.conn.irecvlen
        → Got me s
            (record s { conn = keep_receiving pkg_bd_recving (length bytes) got })
            (packages acc bytes)
    unfolding keep_receiving
    body_more lt =
        let n : length acc + length bytes < pkg_len acc =
          omega (arith, length-body me s.conn k m acc h, h.rest, h.announced) in
        rw (packages-judge acc (pkg_len acc) b bs opened (omega arith), opened bytes n)
          (record {
            holds =
                in_body (k + length bytes) _ refl
                  (keep_body me s.conn k m acc bytes pkg_bd_recving h lt);
            queue = sym (append-nil _);
          })
