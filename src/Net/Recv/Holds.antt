-- ===== src/Net/Recv/Holds.antt =====
-- How a connection's receive buffers stand for the bytes of a package that came so far.
use linux_c_study.Prelude.{
  ℕ, ◌+◌, ◌-◌, ◌≤◌, ◌<◌, ◌≡◌, refl, sym, ap, ◌∙◌, List, ◌++◌, Option, none, some, map, arith,
  length, take, splice, take-splice, length-splice, length-take,
}
use mathlib.Core.Option
use linux_c_study.Net.Conn.{
  PkgState, pkg_hd_init, pkg_hd_recving, pkg_bd_init, pkg_bd_recving, in_head, in_mem, Msg,
  Connection, pkg_max_length, data_bufsize, len_pkg_header, pkg_len,
}
use linux_c_study.Net.Recv.{recv_into, keep_receiving}
use linux_c_study.Net.Recv.Stream.{pkg_len-append}
use linux_c_study.Threads.{ThreadPool}

-- The first k bytes of a header are in `dataHeadInfo`.
pub record HeadHolds (c : Connection) (k : ℕ) (acc : List ℕ) : Type 0 where
  pub bytes : take k c.data_head_info ≡ acc
  pub size : length c.data_head_info ≡ data_bufsize
  pub pointer : c.precvbuf ≡ in_head k
  pub rest : c.irecvlen + k ≡ len_pkg_header
  pub more : 0 < c.irecvlen
  pub block : c.precv_mem_pointer ≡ none

-- The header and some of the body, k bytes together, are in the block b.
pub record BodyHolds (me : ℕ) (c : Connection) (k : ℕ) (b : Msg) (acc : List ℕ) : Type 0 where
  pub block : c.precv_mem_pointer ≡ some b
  pub bytes : take k b.pkg ≡ acc
  pub pointer : c.precvbuf ≡ in_mem k
  pub rest : c.irecvlen + k ≡ length b.pkg
  pub more : 0 < c.irecvlen
  pub header : len_pkg_header ≤ k
  pub announced : pkg_len acc ≡ length b.pkg
  pub limit : length b.pkg ≤ pkg_max_length - 1000
  pub owner : b.p_conn ≡ me
  pub fresh : b.i_currsequence ≡ c.i_currsequence
  pub head_size : length c.data_head_info ≡ data_bufsize

-- By the receive state: `acc` is what came of the current package.
pub data Holds (me : ℕ) (c : Connection) (acc : List ℕ) : Type 0 where
  no_byte : c.cur_stat ≡ pkg_hd_init → HeadHolds c 0 acc → Holds me c acc
  in_header : (k : ℕ) → c.cur_stat ≡ pkg_hd_recving → HeadHolds c k acc → Holds me c acc
  at_body :
      (b : Msg) → c.cur_stat ≡ pkg_bd_init → BodyHolds me c len_pkg_header b acc → Holds me c acc
  in_body :
      (k : ℕ) (b : Msg) → c.cur_stat ≡ pkg_bd_recving → BodyHolds me c k b acc → Holds me c acc

-- The packages that wait in the queue, oldest first.
abbrev pub queued : ThreadPool → List (Option (List ℕ))
queued p = map (Option.map (λ (b : Msg). b.pkg)) p.msg_recv_queue

-- What a write of at most the awaited bytes does to `dataHeadInfo`.
pub recv_head :
    (c : Connection) (k : ℕ) (acc bytes : List ℕ)
    → HeadHolds c k acc
    → length bytes ≤ c.irecvlen
    → (take (k + length bytes) (splice c.data_head_info k bytes) ≡ acc ++ bytes)
      × (length (splice c.data_head_info k bytes) ≡ data_bufsize)
recv_head c k acc bytes h le = (
  take-splice c.data_head_info k (k + length bytes) bytes (omega (arith, h.size, h.rest)) refl
      ∙ ap (λ xs. xs ++ bytes) h.bytes,
  length-splice c.data_head_info k bytes (omega (arith, h.size, h.rest)) ∙ h.size,
)

pub length-head : (c : Connection) (k : ℕ) (acc : List ℕ) → HeadHolds c k acc → length acc ≡ k
length-head c k acc h =
    sym (ap length h.bytes) ∙ length-take k c.data_head_info ∙ omega (arith, h.rest, h.size)

pub length-body :
    (me : ℕ) (c : Connection) (k : ℕ) (b : Msg) (acc : List ℕ)
    → BodyHolds me c k b acc
    → length acc ≡ k
length-body me c k b acc h = sym (ap length h.bytes) ∙ length-take k b.pkg ∙ omega (arith, h.rest)

-- And to the block.
pub recv_body :
    (me : ℕ) (c : Connection) (k : ℕ) (b : Msg) (acc bytes : List ℕ)
    → BodyHolds me c k b acc
    → length bytes ≤ c.irecvlen
    → (take (k + length bytes) (splice b.pkg k bytes) ≡ acc ++ bytes)
      × (length (splice b.pkg k bytes) ≡ length b.pkg)
recv_body me c k b acc bytes h le = (
  take-splice b.pkg k (k + length bytes) bytes (omega (arith, h.rest)) refl
      ∙ ap (λ xs. xs ++ bytes) h.bytes,
  length-splice b.pkg k bytes (omega (arith, h.rest)),
)

-- Some bytes came, and the header is not complete.
pub keep_header :
    (c : Connection) (k : ℕ) (acc bytes : List ℕ) (st : PkgState)
    → HeadHolds c k acc
    → length bytes < c.irecvlen
    → HeadHolds
        (keep_receiving st (length bytes) (recv_into c.precvbuf bytes c))
        (k + length bytes)
        (acc ++ bytes)
unfolding keep_receiving recv_into
keep_header c k acc bytes st h lt = rw (h.pointer) (record {
  bytes = (recv_head c k acc bytes h (omega arith)).0;
  size = (recv_head c k acc bytes h (omega arith)).1;
  pointer = refl;
  rest = omega (arith, h.rest);
  more = omega arith;
  block = h.block;
})

-- The same for the body.
pub keep_body :
    (me : ℕ) (c : Connection) (k : ℕ) (b : Msg) (acc bytes : List ℕ) (st : PkgState)
    → BodyHolds me c k b acc
    → length bytes < c.irecvlen
    → BodyHolds me
        (keep_receiving st (length bytes) (recv_into c.precvbuf bytes c))
        (k + length bytes)
        (record b { pkg = splice b.pkg k bytes })
        (acc ++ bytes)
unfolding keep_receiving recv_into
keep_body me c k b acc bytes st h lt = rw (h.pointer) (record {
  block = rw (h.block);
  bytes = (recv_body me c k b acc bytes h (omega arith)).0;
  pointer = refl;
  rest = omega (arith, h.rest, (recv_body me c k b acc bytes h (omega arith)).1);
  more = omega arith;
  header = omega (arith, h.header);
  announced = omega (
    arith,
    h.announced,
    (recv_body me c k b acc bytes h (omega arith)).1,
    pkg_len-append acc bytes (omega (arith, length-body me c k b acc h, h.header)),
  );
  limit = omega (arith, h.limit, (recv_body me c k b acc bytes h (omega arith)).1);
  owner = h.owner;
  fresh = h.fresh;
  head_size = h.head_size;
})
