-- ===== src/Net/Start/Listeners.antt =====
-- The connections of the listening sockets.
use Prim.Native.Nat.{bit_or}
use linux_c_study.Prelude.{
  ℕ, ℤ, ◌+◌, ◌≤◌, ◌≡◌, ◌≢◌, refl, sym, subst, ap, ◌∙◌, inl, inr, arith, List, [], ◌∷◌, Option, none,
  some, Bool, true, false, ◌&&◌, Bool-cases, count, map, ℕ_discrete,
}
use linux_c_study.Net.Conn.{event_accept, Connection}
use linux_c_study.Net.Socket.{Socket, initconnection, ngx_get_connection}
use linux_c_study.Net.Socket.Invariant.{IsValid, InUse, get-IsValid}
use linux_c_study.Net.Socket.Lifecycle.{ngx_get_connection-Taken, no_connections, init-IsValid}
use linux_c_study.Net.Epoll.{epollin, epollrdhup, ngx_epoll_oper_event, oper_events, set_events}
use linux_c_study.Net.Events.Kept.{SameLists, SameLists-IsValid, SameLists-InUse}
use linux_c_study.Net.Listen.{Listening}
use linux_c_study.Net.Start.{set_listening, add_item, listen_on, ngx_epoll_init}

abbrev pub listen_events : ℕ
listen_events = bit_or epollin epollrdhup

-- The connection at p accepts the clients of the i-th listening socket.
pub record Accepts (t : Socket) (i : ℕ) (l : Listening) (p : ℕ) : Type 0 where
  pub own : l.connection ≡ some p
  pub in_use : InUse t p
  pub descriptor : (t.conns p).fd ≡ l.fd
  pub listening : (t.conns p).listening ≡ some i
  pub handler : (t.conns p).rhandler ≡ some event_accept
  pub watched : (t.conns p).events ≡ listen_events

unfoldable pub AllAccept : Socket → ℕ → List Listening → Type 0
AllAccept t i [] = Unit
AllAccept t i (l ∷ ls) = ((p : ℕ) × Accepts t i l p) × AllAccept t (i + 1) ls

unfoldable pub addresses : List Listening → List ℕ
addresses [] = []
addresses (l ∷ ls) =
    let rest = addresses ls in elim l.connection [ none ↦ rest | some p ↦ p ∷ rest ]

abbrev pub ports_and_fds : List Listening → List (ℤ × ℕ)
ports_and_fds ls = map (λ l. (l.port, l.fd)) ls

-- What the loop makes of the pool s and the listening sockets.
pub record Started (s : Socket) (i : ℕ) (items : List Listening) (items' : List Listening)
    (t : Socket) : Type 0 where
  pub valid : IsValid t
  pub kept : (q : ℕ) → InUse s q → InUse t q × (t.conns q ≡ s.conns q)
  pub same_sockets : ports_and_fds items' ≡ ports_and_fds items
  pub accepting : AllAccept t i items'
  pub unused : (q : ℕ) → InUse s q → count q (addresses items') ≡ 0
  pub once : (q : ℕ) → count q (addresses items') ≤ 1

-- The pool behind one round of the loop.
abbrev pub watch : ℕ → ℕ → Socket → Socket
watch i p t = set_events p listen_events (set_listening i p t)

watch-SameLists : (i p : ℕ) (t : Socket) → SameLists t (watch i p t)
watch-SameLists i p t = record {
  next_conn = refl;
  connections = refl;
  free = refl;
  waiting = refl;
  total = refl;
  free_n = refl;
  recy_n = refl;
}

pub record Watched (s : Socket) (i : ℕ) (l : Listening) (p : ℕ) (u : Socket) : Type 0 where
  pub valid : IsValid u
  was_unused : ¬ InUse s p
  kept : (q : ℕ) → InUse s q → InUse u q × (u.conns q ≡ s.conns q)
  takes : Accepts u i (record l { connection = some p }) p

pub watch-Watched :
    (s : Socket) (i : ℕ) (l : Listening)
    → IsValid s
    → Watched s i l
        (ngx_get_connection l.fd s).0
        (watch i (ngx_get_connection l.fd s).0 (ngx_get_connection l.fd s).1)
watch-Watched s i l v =
    let (p, t) = ngx_get_connection l.fd s in
    let got = ngx_get_connection-Taken l.fd s v in
    let same = watch-SameLists i p t in
    record {
      valid = SameLists-IsValid t _ same (get-IsValid l.fd s v);
      was_unused = got.was_unused;
      kept = λ q u.
          let n : q ≢ p = λ e. got.was_unused (subst (InUse s) e u) in
          let (u', c) = got.others q u in (SameLists-InUse t _ q same u', ground (arith, n, c));
      takes = record {
        own = refl;
        in_use = SameLists-InUse t _ p same got.taken;
        descriptor = ground (arith, got.descriptor);
        listening = ground arith;
        handler = ground arith;
        watched = ground arith;
      };
    }

Accepts-kept :
    {i : ℕ} {l : Listening} {p : ℕ} (u t : Socket)
    → InUse t p × (t.conns p ≡ u.conns p)
    → Accepts u i l p
    → Accepts t i l p
Accepts-kept u t k a = record {
  own = a.own;
  in_use = k.0;
  descriptor = ap (λ (c : Connection). c.fd) k.1 ∙ a.descriptor;
  listening = ap (λ (c : Connection). c.listening) k.1 ∙ a.listening;
  handler = ap (λ (c : Connection). c.rhandler) k.1 ∙ a.handler;
  watched = ap (λ (c : Connection). c.events) k.1 ∙ a.watched;
}

next-Started :
    (s : Socket) (i : ℕ) (l : Listening) (p : ℕ) (u : Socket) (ls ls' : List Listening) (t : Socket)
    → Watched s i l p u
    → Started u (i + 1) ls ls' t
    → Started s i (l ∷ ls) (record l { connection = some p } ∷ ls') t
unfolding addresses AllAccept
next-Started s i l p u ls ls' t r st = record {
  valid = st.valid;
  kept = λ q w. let (w', c) = r.kept q w in let (w'', d) = st.kept q w' in (w'', d ∙ c);
  same_sockets = ap (λ xs. (l.port, l.fd) ∷ xs) st.same_sockets;
  accepting = ((p, Accepts-kept u t (st.kept p r.takes.in_use) r.takes), st.accepting);
  unused = λ q w.
      let n : q ≢ p = λ e. r.was_unused (subst (InUse s) e w) in
      ground (arith, n, st.unused q ((r.kept q w).0));
  once = λ q. elim (ℕ_discrete q p) [
    | yes e ↦
        ground
          (arith, e, subst (λ x. count x (addresses ls') ≡ 0) (sym e) (st.unused p r.takes.in_use))
    | no n ↦ ground (arith, n, st.once q)
  ];
}

-- epoll takes every listening socket.
unfoldable pub all_taken : (ℕ → ℕ → Bool) → List Listening → Bool
all_taken ctl [] = true
all_taken ctl (l ∷ ls) = ctl l.fd listen_events && all_taken ctl ls

-- What starting yields: the end of the process, or the sockets and the pool; `ok` says which.
pub data Outcome (s : Socket) (i : ℕ) (items : List Listening)
    : Bool → Option (List Listening × Socket) → Type 0 where
  exits : Outcome s i items false none
  starts :
      (items' : List Listening) (t : Socket)
      → Started s i items items' t
      → Outcome s i items true (some (items', t))

add-Outcome :
    (s : Socket) (i : ℕ) (l : Listening) (p : ℕ) (u : Socket) (ls : List Listening) {b : Bool}
    {r : Option (List Listening × Socket)}
    → Watched s i l p u
    → Outcome u (i + 1) ls b r
    → Outcome s i (l ∷ ls) b (add_item (record l { connection = some p }) r)
add-Outcome s i l p u ls r exits = exits
add-Outcome s i l p u ls r (starts ls' t st) = starts _ t (next-Started s i l p u ls ls' t r st)

listen_on-Outcome :
    (ctl : ℕ → ℕ → Bool) (i : ℕ) (items : List Listening) (s : Socket)
    → IsValid s
    → Outcome s i items (all_taken ctl items) (listen_on ctl i items s)
unfolding listen_on all_taken ngx_epoll_oper_event oper_events AllAccept addresses
listen_on-Outcome ctl i [] s v = starts [] s (record {
  valid = v;
  kept = λ q u. (u, refl);
  same_sockets = refl;
  accepting = tt;
  unused = λ q u. refl;
  once = λ q. omega arith;
})
listen_on-Outcome ctl i (l ∷ ls) s v = elim (Bool-cases (ctl l.fd listen_events)) [
  | inr e ↦ rw (e, listen_on) exits
  | inl e ↦
      let r = watch-Watched s i l v in
      rw (e, listen_on) (add-Outcome s i l _ _ ls r (listen_on-Outcome ctl (i + 1) ls _ r.valid))
]

-- A worker's start ends the process exactly where epoll_create() or epoll_ctl() fails. Otherwise its pool is in
-- order, and each listening socket has a connection of its own, in use, that no other listening socket has, which
-- points back to it, calls ngx_event_accept and is watched for input and for the end of the peer.
pub epoll_init-Outcome :
    (created : Bool) (ctl : ℕ → ℕ → Bool) (items : List Listening) (workers wait : ℕ)
    → Outcome
        (initconnection (no_connections workers wait))
        0
        items
        (created && all_taken ctl items)
        (ngx_epoll_init created ctl items (no_connections workers wait))
unfolding ngx_epoll_init
epoll_init-Outcome true ctl items workers wait =
    listen_on-Outcome ctl 0 items _ (init-IsValid workers wait)
epoll_init-Outcome false ctl items workers wait = exits
