-- ===== src/Net/Listen/Closing.antt =====
-- Closing the listening sockets.
use linux_c_study.Prelude.{
  ℕ, zero, suc, ◌+◌, ◌≡◌, refl, ap, ◌∙◌, ◌<◌, ◌-◌, get_elem?, ℕ_discrete, arith, List, [], ◌∷◌,
  Option, some, true, count, length, ℤ, drop, ◌≤◌,
}
use linux_c_study.Conf.{ConfItem}
use linux_c_study.Net.Memory.{count-remove_self, count-remove_ne}
use linux_c_study.Net.Listen.{
  Listening, Listen, SocketCalls, close_socket, rounds, ngx_open_listening_sockets, close_rounds,
  ngx_close_listening_sockets,
}
use linux_c_study.Net.Listen.Tracked.{fds, none_yet, open_listening-Listens}

drop_all : (xs : List Listening) (i : ℕ) → length xs ≤ i → drop i xs ≡ []
drop_all [] zero h = refl
drop_all [] (suc i) h = refl
drop_all (x ∷ xs) zero h = absurd (omega (arith, h))
drop_all (x ∷ xs) (suc i) h = drop_all xs i (omega (arith, h))

drop-get :
    (xs : List Listening) (i : ℕ)
    → i < length xs
    → (x : Listening) × ((get_elem? xs i ≡ some x) × (drop i xs ≡ x ∷ drop (suc i) xs))
drop-get [] i h = absurd (omega (arith, h))
drop-get (x ∷ xs) zero h = (x, (refl, refl))
drop-get (x ∷ xs) (suc i) h = drop-get xs i (omega (arith, h))

count-close :
    (a fd : ℕ) (l : Listen)
    → count a (close_socket fd l).descriptors ≡ count a l.descriptors - count a (fd ∷ [])
unfolding close_socket
count-close a fd l = elim (ℕ_discrete a fd) [
  | yes e ↦ rw e (ground (arith, count-remove_self fd l.descriptors))
  | no n ↦ ground (arith, n, count-remove_ne a fd l.descriptors n)
]

closed-step :
    (a fd : ℕ) (l : Listen) (rest : List ℕ) {n : ℕ}
    → n ≡ count a (close_socket fd l).descriptors - count a rest
    → n ≡ count a l.descriptors - count a (fd ∷ rest)
closed-step a fd l rest e = ground (arith, e, count-close a fd l)

abbrev Closed : List Listening → Listen → Option Listen → Type 0
Closed items l r =
    (u : Listen) × ((r ≡ some u)
      × ((a : ℕ) → count a u.descriptors ≡ count a l.descriptors - count a (fds items)))

close_rounds-Closed :
    (n i : ℕ) (l : Listen)
    → i + n ≡ length l.listen_socket_list
    → Closed (drop i l.listen_socket_list) l (close_rounds n i l)
unfolding close_rounds close_socket
close_rounds-Closed zero i l h =
    (l, (refl, λ a. rw (drop_all l.listen_socket_list i (omega (arith, h))) (omega arith)))
close_rounds-Closed (suc n) i l h =
    let (x, (e, d)) = drop-get l.listen_socket_list i (omega (arith, h)) in
    let (u, (f, c)) = close_rounds-Closed n (i + 1) (close_socket x.fd l) (omega (arith, h)) in
    let j : suc i ≡ i + 1 = omega arith in
    rw (e, close_rounds, d ∙ ap (λ k. x ∷ drop k l.listen_socket_list) j)
      (u, (f, λ a. closed-step a x.fd l (fds (drop (i + 1) l.listen_socket_list)) (c a)))

-- Where the sockets were opened, closing them with the same count leaves the descriptors that were open before,
-- and nothing else.
pub close-open_listening :
    (kernel : ℕ → SocketCalls) (atoi : List ℕ → ℤ) (items : List ConfItem) (n : ℤ) (ds : List ℕ)
    → (ngx_open_listening_sockets kernel atoi items n (none_yet ds)).1 ≡ true
    → (u : Listen) × ((ngx_close_listening_sockets n
            (ngx_open_listening_sockets kernel atoi items n (none_yet ds)).0
          ≡ some u)
        × ((a : ℕ) → count a u.descriptors ≡ count a ds))
unfolding ngx_close_listening_sockets
close-open_listening kernel atoi items n ds ok =
    let r = open_listening-Listens kernel atoi items n ds in
    let (u, (e, c)) =
      close_rounds-Closed (rounds n) 0
        (ngx_open_listening_sockets kernel atoi items n (none_yet ds)).0
        (omega (arith, (r.succeeds.0 ok).1)) in
    (u, (e, λ a. omega (arith, c a, r.tracked a)))
