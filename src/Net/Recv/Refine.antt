-- ===== src/Net/Recv/Refine.antt =====
-- The receiver finds the packages of the stream: one call of the handler, then any number of calls.
use mathlib.Core.List.{map-append, flatten}
use linux_c_study.Prelude.{
  ℕ, ◌≤◌, ◌≡◌, refl, sym, ap, subst, ◌∙◌, inl, inr, List, [], ◌∷◌, ◌++◌, some, map, arith, ◌==◌,
  ==_iff, ==-false, Bool-cases, length, append-nil, append_assoc,
}
use linux_c_study.Net.Conn.{
  PkgState, RecvPtr, null, pkg_hd_init, pkg_hd_recving, pkg_bd_init, pkg_bd_recving, in_head,
  in_mem, Connection, get_one_to_use, data_bufsize, len_pkg_header,
}
use linux_c_study.Net.Recv.{Rx, receive, on_received, recv_into}
use linux_c_study.Net.Recv.Stream.{packages, packages-append}
use linux_c_study.Net.Recv.Holds.{Holds, no_byte, in_header, at_body, in_body, queued}
use linux_c_study.Net.Recv.Package.{Got}
use linux_c_study.Net.Recv.Steps.{got, header_done, header_more, body_done, body_more}

irecvlen-recv_into :
    (p : RecvPtr) (bs : List ℕ) (c : Connection) → (recv_into p bs c).irecvlen ≡ c.irecvlen
unfolding recv_into
irecvlen-recv_into null bs c = refl
irecvlen-recv_into (in_head k) bs c = refl
irecvlen-recv_into (in_mem k) bs c = refl

module _ (me : ℕ) (fill : ℕ → ℕ) (now b : ℕ) (bs : List ℕ) (s : Rx) (acc : List ℕ) where
  abbrev branch : PkgState → Rx
  branch st =
      on_received st me fill now (length (b ∷ bs)) (record s { conn = got me fill now b bs s acc })

  abbrev len : ℕ
  len = length (b ∷ bs)

  abbrev asked : ℕ
  asked = (got me fill now b bs s acc).irecvlen

  same : asked ≡ s.conn.irecvlen
  unfolding recv_into
  same = irecvlen-recv_into s.conn.precvbuf (b ∷ bs) s.conn

  receive-branch :
      (st : PkgState)
      → s.conn.cur_stat ≡ st
      → Got me s (branch st) (packages acc (b ∷ bs))
      → Got me s (receive me fill now (b ∷ bs) s) (packages acc (b ∷ bs))
  unfolding receive
  receive-branch st e g = subst (λ t. Got me s (branch t) (packages acc (b ∷ bs))) (sym e) g

  -- One call of the handler, with what recv() may bring: some bytes, at most as many as were asked for.
  pub receive-Got :
      Holds me s.conn acc
      → length (b ∷ bs) ≤ s.conn.irecvlen
      → Got me s (receive me fill now (b ∷ bs) s) (packages acc (b ∷ bs))
  unfolding on_received
  receive-Got (no_byte st h) le =
      receive-branch pkg_hd_init st (elim (Bool-cases (len == len_pkg_header)) [
        | inl e ↦
            rw e (header_done me fill now b bs s acc 0 h (omega (arith, (==_iff _ _).0 e, h.rest)))
        | inr e ↦
            rw e (header_more me fill now b bs s acc 0 h (omega (arith, ==-false _ _ e, h.rest)))
      ])
  receive-Got (in_header k st h) le =
      receive-branch pkg_hd_recving st (elim (Bool-cases (asked == len)) [
        | inl e ↦
            rw e (header_done me fill now b bs s acc k h (omega (arith, (==_iff _ _).0 e, same)))
        | inr e ↦
            rw e (header_more me fill now b bs s acc k h (omega (arith, ==-false _ _ e, same)))
      ])
  receive-Got (at_body m st h) le =
      receive-branch pkg_bd_init st (elim (Bool-cases (len == asked)) [
        | inl e ↦
            rw e (body_done me fill now b bs s acc _ m h (omega (arith, (==_iff _ _).0 e, same)))
        | inr e ↦
            rw e (body_more me fill now b bs s acc _ m h (omega (arith, ==-false _ _ e, same)))
      ])
  receive-Got (in_body k m st h) le =
      receive-branch pkg_bd_recving st (elim (Bool-cases (asked == len)) [
        | inl e ↦
            rw e (body_done me fill now b bs s acc k m h (omega (arith, (==_iff _ _).0 e, same)))
        | inr e ↦
            rw e (body_more me fill now b bs s acc k m h (omega (arith, ==-false _ _ e, same)))
      ])

-- What recv() may bring, call after call: some bytes, at most as many as were asked for.
unfoldable pub Fits : ℕ → (ℕ → ℕ) → ℕ → Rx → List (List ℕ) → Type 0
Fits me fill now s [] = Unit
Fits me fill now s ([] ∷ chunks) = ⊥
Fits me fill now s ((b ∷ bs) ∷ chunks) =
    (length (b ∷ bs) ≤ s.conn.irecvlen) × Fits me fill now (receive me fill now (b ∷ bs) s) chunks

-- The handler is called for each chunk.
unfoldable pub receive_all : ℕ → (ℕ → ℕ) → ℕ → Rx → List (List ℕ) → Rx
receive_all me fill now s [] = s
receive_all me fill now s (bs ∷ chunks) = receive_all me fill now (receive me fill now bs s) chunks

-- A connection holds the first bytes of a package, and each call of recv() brings at least one byte and at
-- most as many as were asked for: then, however the stream is cut, its packages are queued, each once, whole
-- and in order, those with a bad length are dropped, and the connection holds the bytes of the package that
-- has begun.
pub receive_all-Got :
    (me : ℕ) (fill : ℕ → ℕ) (now : ℕ) (s : Rx) (acc : List ℕ) (chunks : List (List ℕ))
    → Holds me s.conn acc
    → Fits me fill now s chunks
    → Got me s (receive_all me fill now s chunks) (packages acc (flatten chunks))
unfolding receive_all Fits packages flatten
receive_all-Got me fill now s acc [] h f = record { holds = h; queue = sym (append-nil _) }
receive_all-Got me fill now s acc ([] ∷ chunks) h f = absurd f
receive_all-Got me fill now s acc ((b ∷ bs) ∷ chunks) h f =
    let g = receive-Got me fill now b bs s acc h f.0 in
    let t = receive me fill now (b ∷ bs) s in
    let r = packages acc (b ∷ bs) in
    let g' = receive_all-Got me fill now t r.0 chunks g.holds f.1 in
    rw (packages-append acc (b ∷ bs) (flatten chunks)) (record {
      holds = g'.holds;
      queue =
          g'.queue
          ∙ ap (λ q. q ++ map some (packages r.0 (flatten chunks)).1) g.queue
          ∙ append_assoc (queued s.pool) (map some r.1) _
          ∙ ap (λ q. queued s.pool ++ q) (sym (map-append some r.1 _));
    })

-- A connection that was just taken from the pool waits for a header.
pub get_one_to_use-Holds :
    (me : ℕ) (c : Connection)
    → length c.data_head_info ≡ data_bufsize
    → Holds me (get_one_to_use c) []
unfolding get_one_to_use
get_one_to_use-Holds me c size = no_byte refl (record {
  bytes = refl;
  size = size;
  pointer = refl;
  rest = omega arith;
  more = omega arith;
  block = refl;
})

-- Two ways to cut one stream into what recv() may bring give a connection's queue the same packages, also
-- where fresh memory holds other bytes and the calls come at another time.
pub receive_all-cut :
    (me : ℕ) (fill fill' : ℕ → ℕ) (now now' : ℕ) (s : Rx) (acc : List ℕ) (cut cut' : List (List ℕ))
    → Holds me s.conn acc
    → Fits me fill now s cut
    → Fits me fill' now' s cut'
    → flatten cut ≡ flatten cut'
    → queued (receive_all me fill now s cut).pool ≡ queued (receive_all me fill' now' s cut').pool
receive_all-cut me fill fill' now now' s acc cut cut' h f f' e =
    (receive_all-Got me fill now s acc cut h f).queue
    ∙ ap (λ bs. queued s.pool ++ map some (packages acc bs).1) e
    ∙ sym (receive_all-Got me fill' now' s acc cut' h f').queue
