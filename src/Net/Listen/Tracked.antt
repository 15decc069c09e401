-- ===== src/Net/Listen/Tracked.antt =====
-- The descriptors and the list of listening sockets.
use linux_c_study.Prelude.{
  ℕ, zero, suc, ◌+◌, ◌≡◌, refl, sym, ap, ◌∙◌, ◌⊎◌, ◌↔◌, ◌<◌, length-map, arith, List, [], ◌∷◌, ◌++◌,
  map, none, Bool, true, false, Bool-cases, Option-cases, inl, inr, count, count-append, length, ℤ,
  append_assoc, append-nil, ◌≤◌,
}
use linux_c_study.Conf.{ConfItem}
use linux_c_study.Net.Memory.{remove}
use linux_c_study.Net.Listen.{
  Listening, Listen, SocketCalls, open_socket, close_socket, add_listening, setnonblocking, in_port,
  set_up_socket, open_round, open_rounds, rounds, listen_port, ngx_open_listening_sockets,
}

abbrev pub fds : List Listening → List ℕ
fds items = map (λ i. i.fd) items

abbrev pub ports : List Listening → List ℤ
ports items = map (λ i. i.port) items

-- n values of a function, from i on.
unfoldable pub values : (ℕ → ℤ) → ℕ → ℕ → List ℤ
values f zero i = []
values f (suc n) i = f i ∷ values f n (i + 1)

-- What opening leaves of the state: the descriptors that were opened and are not closed are those of the
-- listed sockets, which listen on the first n ports of `port` from i on.
record Opened (port : ℕ → ℤ) (i n : ℕ) (l t : Listen) : Type 0 where
  opened :
      (a : ℕ)
      → count a t.descriptors + count a (fds l.listen_socket_list)
        ≡ count a l.descriptors + count a (fds t.listen_socket_list)
  listed : ports t.listen_socket_list ≡ ports l.listen_socket_list ++ values port n i

fds-append : (xs ys : List Listening) → fds (xs ++ ys) ≡ fds xs ++ fds ys
fds-append [] ys = refl
fds-append (x ∷ xs) ys = ap (λ r. x.fd ∷ r) (fds-append xs ys)

ports-append : (xs ys : List Listening) → ports (xs ++ ys) ≡ ports xs ++ ports ys
ports-append [] ys = refl
ports-append (x ∷ xs) ys = ap (λ r. x.port ∷ r) (ports-append xs ys)

unchanged-Opened : (port : ℕ → ℤ) (i : ℕ) (l : Listen) → Opened port i 0 l l
unfolding values
unchanged-Opened port i l = record { opened = λ a. refl; listed = sym (append-nil _) }

added-Opened :
    (port : ℕ → ℤ) (i isock : ℕ) (l : Listen)
    → Opened port i 1 l (add_listening isock (port i) (open_socket isock l))
unfolding values
added-Opened port i isock l = record {
  opened = λ a. ground (
    arith,
    ap (count a) (
        fds-append l.listen_socket_list
          (record { port = port i; fd = isock; connection = none } ∷ [])),
    count-append a (fds l.listen_socket_list) (isock ∷ []),
  );
  listed = ports-append l.listen_socket_list _;
}

closed-same : (isock : ℕ) (l : Listen) → close_socket isock (open_socket isock l) ≡ l
unfolding close_socket remove
closed-same isock l = ground arith

abbrev Ended : ℤ → Listen → Listen × Bool → Type 0
Ended port l r =
    (r ≡ (l, false)) ⊎ ((isock : ℕ) × (r ≡ (add_listening isock port (open_socket isock l), true)))

set_up_socket-Ended :
    (k : SocketCalls) (isock : ℕ) (port : ℤ) (l : Listen)
    → Ended port l (set_up_socket k isock port (open_socket isock l))
unfolding set_up_socket setnonblocking
set_up_socket-Ended k isock port l = elim (Bool-cases k.setsockopt) [
  | inr e ↦ rw e closed
  | inl e ↦ rw e (elim (Bool-cases k.ioctl) [
    | inr f ↦ rw f closed
    | inl f ↦ rw f (elim (Bool-cases (k.bind (in_port port))) [
      | inr g ↦ rw g closed
      | inl g ↦
          rw g
            (elim (Bool-cases k.listen) [ inr h ↦ rw h closed | inl h ↦ rw h (inr (isock, refl)) ])
    ])
  ])
]
  where
    closed : Ended port l (close_socket isock (open_socket isock l), false)
    closed = inl (ap (λ t. (t, false)) (closed-same isock l))

-- A round ends with the state that it began with, or with one more socket.
open_round-Ended : (k : SocketCalls) (port : ℤ) (l : Listen) → Ended port l (open_round k port l)
unfolding open_round
open_round-Ended k port l = elim (Option-cases k.socket) [
  | inl e ↦ rw e (inl refl)
  | inr (isock, e) ↦ rw e (set_up_socket-Ended k isock port l)
]

-- So many rounds were done, all of them where the loop went on to its end.
abbrev Ran : (ℕ → ℤ) → ℕ → ℕ → Listen → Listen × Bool → Type 0
Ran port i n l r = (m : ℕ) × ((m ≤ n) × (((r.1 ≡ true) ↔ (m ≡ n)) × Opened port i m l r.0))

then-Opened :
    (port : ℕ → ℤ) (i m isock : ℕ) (l t : Listen)
    → Opened port (i + 1) m (add_listening isock (port i) (open_socket isock l)) t
    → Opened port i (suc m) l t
unfolding values
then-Opened port i m isock l t o =
    let first = added-Opened port i isock l in
    record {
      opened = λ a. omega (arith, o.opened a, first.opened a);
      listed =
          o.listed
          ∙ (ap (λ xs. xs ++ values port m (i + 1)) first.listed
              ∙ append_assoc (ports l.listen_socket_list) _ _);
    }

open_rounds-Ran :
    (kernel : ℕ → SocketCalls) (port : ℕ → ℤ) (n i : ℕ) (l : Listen)
    → Ran port i n l (open_rounds kernel port n i l)
unfolding open_rounds
open_rounds-Ran kernel port zero i l =
    (0, (omega arith, ((λ e. refl, λ e. refl), unchanged-Opened port i l)))
open_rounds-Ran kernel port (suc n) i l = elim (open_round-Ended (kernel i) (port i) l) [
  | inl e ↦
      rw (e, open_rounds)
        (
          0,
          (
            omega arith,
            ((λ f. absurd cc, λ f. absurd (omega (arith, f))), unchanged-Opened port i l),
          ),
        )
  | inr (isock, e) ↦
      let (m, (le, (all, o))) =
        open_rounds-Ran kernel port n (i + 1)
          (add_listening isock (port i) (open_socket isock l)) in
      rw (e, open_rounds)
        (
          suc m,
          (
            omega (arith, le),
            (
              (λ f. ap suc (all.0 f), λ f. all.1 (omega (arith, f))),
              then-Opened port i m isock l _ o,
            ),
          ),
        )
]

abbrev pub none_yet : List ℕ → Listen
none_yet ds = record { listen_socket_list = []; descriptors = ds }

-- What ngx_open_listening_sockets leaves and returns, where no socket was listed before.
pub record Listens (port : ℕ → ℤ) (n : ℕ) (ds : List ℕ) (t : Listen) (ok : Bool) : Type 0 where
  pub tracked : (a : ℕ) → count a t.descriptors ≡ count a ds + count a (fds t.listen_socket_list)
  pub in_order : (m : ℕ) × ((m ≤ n) × (ports t.listen_socket_list ≡ values port m 0))
  pub succeeds : (ok ≡ true) ↔ ((0 < n) × (length t.listen_socket_list ≡ n))

length-values : (port : ℕ → ℤ) (m i : ℕ) → length (values port m i) ≡ m
unfolding values
length-values port zero i = refl
length-values port (suc m) i = ap suc (length-values port m (i + 1))

length-ports :
    (items : List Listening) (port : ℕ → ℤ) (m i : ℕ)
    → ports items ≡ values port m i
    → length items ≡ m
length-ports items port m i e =
    sym (length-map items (λ (x : Listening). x.port)) ∙ (ap length e ∙ length-values port m i)

-- Whatever the kernel answers and the configuration says, the descriptors that stay open are those that were
-- open before and those of the listed sockets, and the list holds the first configured ports in their order;
-- the function returns true exactly where there are ports to listen on and each has its socket.
pub open_listening-Listens :
    (kernel : ℕ → SocketCalls) (atoi : List ℕ → ℤ) (items : List ConfItem) (n : ℤ) (ds : List ℕ)
    → let (t, ok) = ngx_open_listening_sockets kernel atoi items n (none_yet ds) in
      Listens (listen_port atoi items) (rounds n) ds t ok
unfolding ngx_open_listening_sockets
open_listening-Listens kernel atoi items n ds =
    let (m, (le, (all, o))) =
      open_rounds-Ran kernel (listen_port atoi items) (rounds n) 0 (none_yet ds) in
    let l = length-ports _ (listen_port atoi items) m 0 o.listed in
    elim (Bool-cases ((open_rounds kernel (listen_port atoi items) (rounds n) 0 (none_yet ds)).1)) [
      | inr e ↦ rw e (record {
        tracked = λ a. omega (arith, o.opened a);
        in_order = (m, (le, o.listed));
        succeeds = (λ f. absurd cc, λ f. let g = all.1 (omega (arith, l, f.1)) in absurd cc);
      })
      | inl e ↦ rw e (record {
        tracked = λ a. omega (arith, o.opened a);
        in_order = (m, (le, o.listed));
        succeeds = (
          λ f. (ground (arith, f, l, all.0 e), omega (arith, l, all.0 e)),
          λ f. ground (arith, f.0, f.1),
        );
      })
    ]
