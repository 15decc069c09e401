-- ===== src/Net/Socket/Lifecycle.antt =====
-- What happens to connections while a worker runs: taken for a socket, sent to the recycling queue when
-- the client is gone, given back at once when accept fails half-way, and freed by the recycling thread.
use linux_c_study.Prelude.{
  ℕ, zero, suc, ◌%◌, ◌^◌, ◌≤◌, ◌≡◌, refl, sym, ap, ◌∙◌, List, [], ◌∷◌, ◌++◌, arith, length, count,
  count-append,
}
use linux_c_study.Net.Socket.{
  Socket, Server, new_connection, add_connection, add_connections, initconnection, take_connection,
  ngx_get_connection, in_recy_connect_queue, ngx_close_connection, close_fd, recy_connection_round,
}
use linux_c_study.Net.Socket.Invariant.{
  IsValid, InUse, get-IsValid, in_recy-IsValid, close-IsValid, round-IsValid,
}
use linux_c_study.Threads.{init}

-- The constructor of CSocekt, with the configured numbers.
unfoldable pub no_connections : ℕ → ℕ → Socket
no_connections workers wait = record {
  conns = λ p. new_connection;
  next_conn = 0;
  worker_connections = workers;
  connection_list = [];
  freeconnection_list = [];
  total_connection_n = 0;
  free_connection_n = 0;
  recyconnection_list = [];
  totol_recyconnection_n = 0;
  recy_connection_wait_time = wait;
  closed = [];
}

-- A worker at the start of its event loop.
unfoldable pub start : ℕ → ℕ → ℕ → Server
unfolding no_connections initconnection init
start workers wait threads = record {
  socket = initconnection (no_connections workers wait);
  memory = record { next = 0; live = [] };
  pool = init threads;
}

-- One change of the connection pool; the events and the clock choose.
pub data Step (s : Server) : Server → Type 0 where
  connect : (isock : ℕ) → Step s (record s { socket = (ngx_get_connection isock s.socket).1 })
  disconnect :
      (now p : ℕ)
      → InUse s.socket p
      → Step s (record s {
        socket = in_recy_connect_queue now p (close_fd ((s.socket.conns p).fd) s.socket);
      })
  abort : (p : ℕ) → InUse s.socket p → Step s (ngx_close_connection p s)
  round : (stop now : ℕ) → Step s (recy_connection_round stop now s).0

pub data Reach (s : Server) : Server → Type 0 where
  here : Reach s s
  next : {t u : Server} → Reach s t → Step t u → Reach s u

pub close_fd-IsValid : (fd : ℕ) (s : Socket) → IsValid s → IsValid (close_fd fd s)
unfolding close_fd
close_fd-IsValid fd s v = record {
  known = v.known;
  once = v.once;
  fresh = v.fresh;
  total = v.total;
  free_n = v.free_n;
  recy_n = v.recy_n;
}

pub close_fd-InUse : (fd : ℕ) (s : Socket) (p : ℕ) → InUse s p → InUse (close_fd fd s) p
unfolding close_fd
close_fd-InUse fd s p u = record {
  pooled = u.pooled;
  not_free = u.not_free;
  not_waiting = u.not_waiting;
}

pub Step-IsValid : {s t : Server} → Step s t → IsValid s.socket → IsValid t.socket
Step-IsValid {s} (connect isock) v = get-IsValid isock s.socket v
Step-IsValid {s} (disconnect now p u) v =
    in_recy-IsValid now p _ (close_fd-IsValid _ s.socket v) (close_fd-InUse _ s.socket p u)
Step-IsValid {s} (abort p u) v = close-IsValid p s v u
Step-IsValid {s} (round stop now) v = round-IsValid stop now s v

-- What initconnection's loop keeps: both lists hold the same new connections.
record Fills (s : Socket) : Type 0 where
  same : s.freeconnection_list ≡ s.connection_list
  unused : s.recyconnection_list ≡ []
  recy_n : s.totol_recyconnection_n ≡ 0
  once : (a : ℕ) → count a s.connection_list ≤ 1
  fresh : (a : ℕ) → s.next_conn ≤ a → count a s.connection_list ≡ 0

add_connections-Fills : (n : ℕ) (s : Socket) → Fills s → Fills (add_connections n s)
unfolding add_connections add_connection
add_connections-Fills zero s f = f
add_connections-Fills (suc n) s f = add_connections-Fills n (add_connection s) (record {
  same = ap (λ xs. xs ++ s.next_conn ∷ []) f.same;
  unused = f.unused;
  recy_n = f.recy_n;
  once =
      λ a. grind (arith, f.once a, f.fresh a, count-append a s.connection_list (s.next_conn ∷ []));
  fresh = λ a h. grind (arith, f.fresh a, count-append a s.connection_list (s.next_conn ∷ []));
})

pub init-IsValid : (workers wait : ℕ) → IsValid (initconnection (no_connections workers wait))
unfolding initconnection no_connections
init-IsValid workers wait =
    let f = add_connections-Fills workers (no_connections workers wait) (record {
      same = refl;
      unused = refl;
      recy_n = refl;
      once = λ a. omega arith;
      fresh = λ a h. refl;
    }) in
    record {
      known = λ a. omega (arith, ap (count a) f.same, ap (count a) f.unused);
      once = f.once;
      fresh = f.fresh;
      total = refl;
      free_n = sym (ap (λ (xs : List ℕ). length xs % 2 ^ 32) f.same);
      recy_n = f.recy_n ∙ sym (ap (λ (xs : List ℕ). length xs % 2 ^ 32) f.unused);
    }

start-IsValid : (workers wait threads : ℕ) → IsValid (start workers wait threads).socket
unfolding start
start-IsValid workers wait threads = init-IsValid workers wait

-- In every state that a worker reaches from its start by taking, dropping, closing and releasing connections,
-- the counters are the lengths of the lists modulo 2 ^ 32, every connection that is free or waits for its
-- release belongs to the pool, and none is both, or twice in a list.
pub Reach-IsValid :
    (workers wait threads : ℕ) {s : Server}
    → Reach (start workers wait threads) s
    → IsValid s.socket
Reach-IsValid workers wait threads here = start-IsValid workers wait threads
Reach-IsValid workers wait threads (next r st) =
    Step-IsValid st (Reach-IsValid workers wait threads r)

-- The connection that ngx_get_connection hands out, in the pool t that it leaves.
pub record Taken (isock : ℕ) (s : Socket) (p : ℕ) (t : Socket) : Type 0 where
  pub taken : InUse t p
  pub was_unused : ¬ InUse s p
  pub descriptor : (t.conns p).fd ≡ isock
  pub others : (q : ℕ) → InUse s q → InUse t q × (t.conns q ≡ s.conns q)

take-Taken :
    (free : List ℕ) (isock : ℕ) (s : Socket)
    → s.freeconnection_list ≡ free
    → IsValid s
    → Taken isock s (take_connection free isock s).0 (take_connection free isock s).1
unfolding take_connection
take-Taken [] isock s e v = record {
  taken = record {
    pooled = grind (arith, new, count-append s.next_conn s.connection_list (s.next_conn ∷ []));
    not_free = omega (arith, new, v.known s.next_conn);
    not_waiting = omega (arith, new, v.known s.next_conn);
  };
  was_unused = λ u. absurd (omega (arith, u.pooled, new));
  descriptor = ground arith;
  others = λ q u. (
    record {
      pooled = ground (arith, u.pooled, new, count-append q s.connection_list (s.next_conn ∷ []));
      not_free = u.not_free;
      not_waiting = u.not_waiting;
    },
    ground (arith, u.pooled, new),
  );
}
  where
    new : count s.next_conn s.connection_list ≡ 0
    new = v.fresh s.next_conn (omega arith)
take-Taken (p ∷ rest) isock s e v = record {
  taken = record {
    pooled = omega (arith, was_free, v.known p, v.once p);
    not_free = omega (arith, was_free, v.known p, v.once p);
    not_waiting = omega (arith, was_free, v.known p, v.once p);
  };
  was_unused = λ u. absurd (omega (arith, was_free, u.not_free));
  descriptor = ground arith;
  others = λ q u. (
    record {
      pooled = u.pooled;
      not_free = ground (arith, u.not_free, ap (count q) e);
      not_waiting = u.not_waiting;
    },
    ground (arith, u.not_free, ap (count q) e),
  );
}
  where
    was_free : count p s.freeconnection_list ≡ suc (count p rest)
    was_free = ground (arith, ap (count p) e)

-- From a pool that is in order, a connection that is handed out was not in use, is in use now with the socket's
-- descriptor, and those in use before are so still, and unchanged.
pub ngx_get_connection-Taken :
    (isock : ℕ) (s : Socket)
    → IsValid s
    → Taken isock s (ngx_get_connection isock s).0 (ngx_get_connection isock s).1
unfolding ngx_get_connection
ngx_get_connection-Taken isock s v = take-Taken s.freeconnection_list isock s refl v
