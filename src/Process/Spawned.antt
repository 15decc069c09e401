-- ===== src/Process/Spawned.antt =====
-- The children of the master process, and its title.
use linux_c_study.Prelude.{
  ℕ, zero, suc, ◌+◌, ◌≤◌, ◌<◌, ◌≡◌, ◌≢◌, refl, sym, ap, ◌∙◌, List, [], ◌∷◌, ◌++◌, none, some, arith,
  length, length-append, append_assoc, append-nil, inl, inr, ltb→lt, ltb, Bool-cases, subst,
  ℕ_discrete, Bool, true, false, ℤ, pos,
}
use mathlib.Core.List.{flatten}
use mathlib.Core.Option.{some_inj}
use linux_c_study.Conf.{ConfItem, get_int_default}
use linux_c_study.Net.Listen.{rounds}
use linux_c_study.Process.Title.{Titles, need_mem, at_start, ngx_init_setproctitle}
use linux_c_study.Process.Title.Environ.{Text, Texts, Shown, setproctitle-Shown}
use linux_c_study.Process.{
  Proc, Fork, failed, in_child, in_parent, master_process, strcat_all, master_title,
  set_master_title, Role, master, worker, start_workers, worker_processes_name,
  ngx_master_process_cycle,
}

-- The children of the calls of fork() from the i-th on, n of them.
unfoldable pub born : (ℕ → Fork) → ℕ → ℕ → List ℕ
born fork i zero = []
born fork i (suc n) = elim (fork i) [
  | failed ↦ born fork (i + 1) n
  | in_child ↦ born fork (i + 1) n
  | in_parent pid ↦ pid ∷ born fork (i + 1) n
]

-- The process that comes out of n calls of fork(): the master, with all their children, where none of them
-- returned in a child; or the worker of the first that did.
pub data Spawned (fork : ℕ → Fork) (getpid : ℕ → ℕ) (p : Proc) (i n : ℕ)
    : List ℕ → Role → Type 0 where
  stays :
      (children : List ℕ)
      → ((j : ℕ) → i ≤ j → j < i + n → fork j ≢ in_child)
      → Spawned fork getpid p i n children (master (children ++ born fork i n))
  becomes :
      (children : List ℕ) (j : ℕ) (q : Proc)
      → i ≤ j
      → j < i + n
      → fork j ≡ in_child
      → ((k : ℕ) → i ≤ k → k < j → fork k ≢ in_child)
      → q.ngx_pid ≡ getpid j
      → q.ngx_parent ≡ p.ngx_pid
      → Spawned fork getpid p i n children (worker j q)

-- The call before was not one that returned in a child.
below :
    (fork : ℕ → Fork) (i m : ℕ)
    → fork i ≢ in_child
    → ((j : ℕ) → i + 1 ≤ j → j < m → fork j ≢ in_child)
    → (j : ℕ) → i ≤ j
    → j < m
    → fork j ≢ in_child
below fork i m n h j a b = elim (ℕ_discrete j i) [
  | yes e ↦ λ c. n (ap fork (sym e) ∙ c)
  | no d ↦ h j (omega (arith, a, d)) b
]

earlier :
    (fork : ℕ → Fork) (getpid : ℕ → ℕ) (p : Proc) (i n : ℕ) (children more : List ℕ) {r : Role}
    → fork i ≢ in_child
    → children ++ born fork i (suc n) ≡ more ++ born fork (i + 1) n
    → Spawned fork getpid p (i + 1) n more r
    → Spawned fork getpid p i (suc n) children r
earlier fork getpid p i n children more d e (stays _ h) =
    subst (λ ps. Spawned fork getpid p i (suc n) children (master ps)) e
      (stays children (below fork i (i + suc n) d (λ j a b. h j a (omega (arith, b)))))
earlier fork getpid p i n children more d e (becomes _ j q a b c h f g) =
    becomes children j q (omega (arith, a)) (omega (arith, b)) c (below fork i j d h) f g

is_child : Fork → Bool
is_child in_child = true
is_child failed = false
is_child (in_parent pid) = false

other : (f g : Fork) → f ≡ g → is_child g ≡ false → f ≢ in_child
unfolding is_child
other f g e n h = (let z : false ≡ true = sym n ∙ ap is_child (sym e ∙ h) in cc)

start_workers-Spawned :
    (fork : ℕ → Fork) (getpid : ℕ → ℕ) (p : Proc) (n i : ℕ) (children : List ℕ)
    → Spawned fork getpid p i n children (start_workers fork getpid p n i children)
unfolding start_workers born is_child
start_workers-Spawned fork getpid p zero i children =
    subst (λ ps. Spawned fork getpid p i 0 children (master ps)) (append-nil children)
      (stays children (λ j a b. absurd (omega (arith, a, b))))
start_workers-Spawned fork getpid p (suc n) i children =
    go (fork i) refl (start_workers-Spawned fork getpid p n (i + 1))
  where
    go :
        (f : Fork)
        → fork i ≡ f
        → ((cs : List ℕ)
            → Spawned fork getpid p (i + 1) n cs (start_workers fork getpid p n (i + 1) cs))
        → Spawned fork getpid p i (suc n) children (start_workers fork getpid p (suc n) i children)
    go failed e rest =
        rw (e, start_workers)
          (earlier fork getpid p i n children children (other (fork i) failed e refl)
            (rw (e, born) refl) (rest children))
    go in_child e rest =
        rw (e, start_workers)
          (becomes children i _ (omega arith) (omega arith) e
            (λ k a b. absurd (omega (arith, a, b))) refl refl)
    go (in_parent pid) e rest =
        rw (e, start_workers)
          (earlier fork getpid p i n children (children ++ pid ∷ [])
            (other (fork i) (in_parent pid) e refl)
            (rw (e, born) (sym (append_assoc children (pid ∷ []) (born fork (i + 1) n))))
            (rest (children ++ pid ∷ [])))

strcat_all-flatten :
    (title : List ℕ) (ss : List (List ℕ)) → strcat_all title ss ≡ title ++ flatten ss
unfolding strcat_all flatten
strcat_all-flatten title [] = sym (append-nil title)
strcat_all-flatten title (s ∷ ss) =
    strcat_all-flatten (title ++ s) ss ∙ append_assoc title s (flatten ss)

length-flatten : (ss : List (List ℕ)) → length (flatten ss) ≤ need_mem ss
unfolding flatten need_mem
length-flatten [] = omega arith
length-flatten (s ∷ ss) = omega (arith, length-append s (flatten ss), length-flatten ss)

Text-append : (s t : List ℕ) → Text s → Text t → Text (s ++ t)
Text-append [] t x y = y
Text-append (c ∷ s) t x y = (x.0, Text-append s t x.1 y)

Text-flatten : (ss : List (List ℕ)) → Texts ss → Text (flatten ss)
unfolding flatten
Text-flatten [] x = tt
Text-flatten (s ∷ ss) x = Text-append s (flatten ss) x.0 (Text-flatten ss x.1)

abbrev pub words : List (List ℕ) → List ℕ
words argv = (master_process ++ b' ' ∷ []) ++ flatten argv

Text-words : (argv : List (List ℕ)) → Texts argv → Text (words argv)
Text-words argv x =
    Text-append (master_process ++ b' ' ∷ []) (flatten argv)
      (
        refl,
        (
          refl,
          (
            refl,
            (
              refl,
              (
                refl,
                (refl, (refl, (refl, (refl, (refl, (refl, (refl, (refl, (refl, (refl, tt)))))))))),
              ),
            ),
          ),
        ),
      )
      (Text-flatten argv x)

master_title-words :
    (argv : List (List ℕ)) (title : List ℕ)
    → master_title argv (need_mem argv) ≡ some title
    → (title ≡ words argv) × (length title < 1000)
unfolding master_title
master_title-words argv title e =
    elim (Bool-cases (ltb (length master_process + 1 + need_mem argv) 1000)) [
      | inl f ↦
          let z : master_title argv (need_mem argv)
              ≡ some (strcat_all (master_process ++ b' ' ∷ []) argv) =
            rw f refl in
          let text : title ≡ words argv =
            some_inj.0 (sym e ∙ z) ∙ strcat_all-flatten (master_process ++ b' ' ∷ []) argv in
          (
            text,
            omega (
              arith,
              ap length text,
              length-append (master_process ++ b' ' ∷ []) (flatten argv),
              length-flatten argv,
              ltb→lt _ _ f,
            ),
          )
      | inr f ↦ (let z : master_title argv (need_mem argv) ≡ none = rw f refl in cc)
    ]

set_master_title-Shown :
    (argv env : List (List ℕ)) (title : List ℕ)
    → Texts argv
    → Texts env
    → master_title argv (need_mem argv) ≡ some title
    → Shown argv env title (set_master_title argv (ngx_init_setproctitle (at_start argv env)))
unfolding set_master_title ngx_init_setproctitle at_start
set_master_title-Shown argv env title x y e =
    rw (e, set_master_title)
      (setproctitle-Shown argv env title y
        (subst Text (sym (master_title-words argv title e).0) (Text-words argv x)))

-- The start of the master process.
pub record Led (fork : ℕ → Fork) (getpid : ℕ → ℕ) (p : Proc) (n : ℕ) (argv env : List (List ℕ))
    (r : Role × Titles) : Type 0 where
  pub role : Spawned fork getpid p 0 n [] r.0
  pub titled :
      (title : List ℕ)
      → master_title argv (need_mem argv) ≡ some title
      → (title ≡ words argv) × (length title < 1000) × Shown argv env title r.1

-- Where the strings of the arguments and of the environment, which has been moved, hold no zero, the master process starts with one
-- child for each fork() that succeeded, in their order, or the process is the worker whose fork() was the first to return 0, with its
-- own number and process ids; a title that is set is "master process", a blank and the arguments, shorter
-- than the buffer of 1000 bytes, and is shown as ngx_setproctitle shows a title.
pub master_process_cycle-Led :
    (fork : ℕ → Fork) (getpid : ℕ → ℕ) (atoi : List ℕ → ℤ) (items : List ConfItem)
    (argv env : List (List ℕ)) (p : Proc)
    → Texts argv
    → Texts env
    → Led fork getpid p
        (rounds (get_int_default atoi worker_processes_name (pos 1) items))
        argv
        env
        (ngx_master_process_cycle fork getpid atoi items argv p
          (ngx_init_setproctitle (at_start argv env)))
unfolding ngx_master_process_cycle
master_process_cycle-Led fork getpid atoi items argv env p x y = record {
  role =
      start_workers-Spawned fork getpid p
        (rounds (get_int_default atoi worker_processes_name (pos 1) items)) 0 [];
  titled = λ title e.
      let w = master_title-words argv title e in
      (w.0, w.1, set_master_title-Shown argv env title x y e);
}
