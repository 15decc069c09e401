-- ===== src/Worker/Blocks.antt =====
-- The blocks of messages: those that connections hold, and those in the queue.
use linux_c_study.Prelude.{
  ℕ, ◌+◌, ◌≡◌, ◌≢◌, refl, ap, arith, List, [], ◌∷◌, ◌++◌, Option, none, some, Bool, true, false,
  count, count-append, ℕ_discrete,
}
use linux_c_study.Net.Conn.{
  PkgState, pkg_hd_init, pkg_hd_recving, pkg_bd_init, pkg_bd_recving, Msg, Connection,
}
use linux_c_study.Net.Socket.{update}

abbrev pub owned : Option Msg → List ℕ
owned none = []
owned (some b) = b.addr ∷ []

abbrev pub has_block : Option Msg → Bool
has_block none = false
has_block (some b) = true

abbrev pub in_body : PkgState → Bool
in_body pkg_hd_init = false
in_body pkg_hd_recving = false
in_body pkg_bd_init = true
in_body pkg_bd_recving = true

-- The blocks that the connections at these addresses hold.
unfoldable pub conn_blocks : (ℕ → Connection) → List ℕ → List ℕ
conn_blocks conns [] = []
conn_blocks conns (p ∷ ps) = owned ((conns p).precv_mem_pointer) ++ conn_blocks conns ps

unfoldable pub queue_blocks : List (Option Msg) → List ℕ
queue_blocks [] = []
queue_blocks (o ∷ os) = owned o ++ queue_blocks os

-- Each entry of the queue is a message.
unfoldable pub AllFilled : List (Option Msg) → Type 0
AllFilled [] = Unit
AllFilled (o ∷ os) = (has_block o ≡ true) × AllFilled os

pub count-queue_append :
    (a : ℕ) (o : Option Msg) (os : List (Option Msg))
    → count a (queue_blocks (os ++ o ∷ [])) ≡ count a (queue_blocks os) + count a (owned o)
unfolding queue_blocks
count-queue_append a o [] = ground (arith, count-append a (owned o) [])
count-queue_append a o (x ∷ os) = omega (
  arith,
  count-append a (owned x) (queue_blocks (os ++ o ∷ [])),
  count-append a (owned x) (queue_blocks os),
  count-queue_append a o os,
)

pub AllFilled-append :
    (o : Option Msg) (os : List (Option Msg))
    → has_block o ≡ true
    → AllFilled os
    → AllFilled (os ++ o ∷ [])
unfolding AllFilled
AllFilled-append o [] h f = (h, tt)
AllFilled-append o (x ∷ os) h f = (f.0, AllFilled-append o os h f.1)

pub count-conn_append :
    (a : ℕ) (conns : ℕ → Connection) (ps : List ℕ) (p : ℕ)
    → count a (conn_blocks conns (ps ++ p ∷ []))
      ≡ count a (conn_blocks conns ps) + count a (owned ((conns p).precv_mem_pointer))
unfolding conn_blocks
count-conn_append a conns [] p =
    ground (arith, count-append a (owned ((conns p).precv_mem_pointer)) [])
count-conn_append a conns (x ∷ ps) p = omega (
  arith,
  count-append a (owned ((conns x).precv_mem_pointer)) (conn_blocks conns (ps ++ p ∷ [])),
  count-append a (owned ((conns x).precv_mem_pointer)) (conn_blocks conns ps),
  count-conn_append a conns ps p,
)

-- Connections that hold the same blocks.
pub conn_blocks-same :
    (c d : ℕ → Connection) (ps : List ℕ)
    → ((q : ℕ) → (d q).precv_mem_pointer ≡ (c q).precv_mem_pointer)
    → conn_blocks d ps ≡ conn_blocks c ps
unfolding conn_blocks
conn_blocks-same c d [] e = refl
conn_blocks-same c d (p ∷ ps) e = rw (e p, conn_blocks-same c d ps e)

-- A write to a connection that is not among them, and to one that is.
pub conn_blocks-other :
    (conns : ℕ → Connection) (p : ℕ) (c : Connection) (ps : List ℕ)
    → count p ps ≡ 0
    → conn_blocks (update conns p c) ps ≡ conn_blocks conns ps
unfolding conn_blocks
conn_blocks-other conns p c [] h = refl
conn_blocks-other conns p c (q ∷ ps) h = ground (arith, conn_blocks-other conns p c ps)

pub count-conn_update :
    (a : ℕ) (conns : ℕ → Connection) (p : ℕ) (c : Connection) (ps : List ℕ)
    → count p ps ≡ 1
    → count a (conn_blocks (update conns p c) ps) + count a (owned ((conns p).precv_mem_pointer))
      ≡ count a (conn_blocks conns ps) + count a (owned c.precv_mem_pointer)
unfolding conn_blocks
count-conn_update a conns p c [] h = absurd (omega (arith, h))
count-conn_update a conns p c (q ∷ ps) h =
    let new =
      count-append a (owned ((update conns p c q).precv_mem_pointer))
        (conn_blocks (update conns p c) ps) in
    let old = count-append a (owned ((conns q).precv_mem_pointer)) (conn_blocks conns ps) in
    elim (ℕ_discrete p q) [
      | yes e ↦
          let here : count a (owned ((update conns p c q).precv_mem_pointer))
              ≡ count a (owned c.precv_mem_pointer) =
            ground (arith, e) in
          let there : count a (owned ((conns p).precv_mem_pointer))
              ≡ count a (owned ((conns q).precv_mem_pointer)) =
            ap (λ x. count a (owned ((conns x).precv_mem_pointer))) e in
          let rest = ap (count a) (conn_blocks-other conns p c ps (ground (arith, h, e))) in
          omega (arith, new, old, here, there, rest)
      | no n ↦
          let here : count a (owned ((update conns p c q).precv_mem_pointer))
              ≡ count a (owned ((conns q).precv_mem_pointer)) =
            ground (arith, n) in
          omega (arith, new, old, here, count-conn_update a conns p c ps (ground (arith, h, n)))
    ]

pub update_self : (conns : ℕ → Connection) (p : ℕ) (c : Connection) → update conns p c p ≡ c
update_self conns p c = ground arith

pub update_other :
    (conns : ℕ → Connection) (p q : ℕ) (c : Connection) → p ≢ q → update conns p c q ≡ conns q
update_other conns p q c n = ground (arith, n)
