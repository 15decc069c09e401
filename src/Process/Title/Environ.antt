-- ===== src/Process/Title/Environ.antt =====
-- The title is readable, and the environment is what it was.
use linux_c_study.Prelude.{
  ℕ, zero, suc, ◌+◌, ◌-◌, ◌<◌, ◌≤◌, ◌≡◌, refl, sym, ap, ◌∙◌, List, [], ◌∷◌, ◌++◌, map, ◌==◌, leb,
  false, length, length-append, length-replicate, length-drop, take, drop, splice,
  take-append_exact, replicate, arith, append_assoc, append-nil, Bool-cases, inl, inr, dec_lt,
  leb→le, leb-false,
}
use linux_c_study.Process.Title.{
  c_string, in_args, in_envmem, Titles, read, layout, offsets, need_mem, at_start, move_environ,
  ngx_init_setproctitle, ngx_setproctitle,
}

-- A string has no zero in it.
abbrev pub Text : List ℕ → Type 0
Text [] = Unit
Text (c ∷ s) = ((c == 0) ≡ false) × Text s

abbrev pub Texts : List (List ℕ) → Type 0
Texts [] = Unit
Texts (s ∷ ss) = Text s × Texts ss

c_string-append : (s rest : List ℕ) → Text s → c_string (s ++ 0 ∷ rest) ≡ s
unfolding c_string
c_string-append [] rest t = refl
c_string-append (c ∷ s) rest t = rw (t.0, c_string-append s rest t.1)

drop-append : (pre rest : List ℕ) → drop (length pre) (pre ++ rest) ≡ rest
drop-append [] rest = refl
drop-append (c ∷ pre) rest = drop-append pre rest

length-layout : (ss : List (List ℕ)) → length (layout ss) ≡ need_mem ss
unfolding layout need_mem
length-layout [] = refl
length-layout (s ∷ ss) = omega (arith, length-append s (0 ∷ layout ss), length-layout ss)

-- The string behind `pre`.
string_here :
    (block pre s rest : List ℕ)
    → block ≡ pre ++ (s ++ 0 ∷ rest)
    → Text s
    → c_string (drop (length pre) block) ≡ s
string_here block pre s rest e t =
    ap (λ b. c_string (drop (length pre) b)) e
    ∙ ap c_string (drop-append pre (s ++ 0 ∷ rest))
    ∙ c_string-append s rest t

-- The next one lies behind it.
past :
    (block pre s rest : List ℕ)
    → block ≡ pre ++ (s ++ 0 ∷ rest)
    → block ≡ (pre ++ (s ++ 0 ∷ [])) ++ rest
past block pre s rest e = e ∙ (simp append_assoc)

length-past : (pre s : List ℕ) → length (pre ++ (s ++ 0 ∷ [])) ≡ length pre + (length s + 1)
length-past pre s = omega (arith, length-append pre (s ++ 0 ∷ []), length-append s (0 ∷ []))

read-layout :
    (t : Titles) (pre : List ℕ) (ss : List (List ℕ))
    → t.envmem ≡ pre ++ layout ss
    → Texts ss
    → map (read t) (map in_envmem (offsets (length pre) ss)) ≡ ss
unfolding read layout offsets
read-layout t pre [] e w = refl
read-layout t pre (s ∷ ss) e w =
    rw (string_here t.envmem pre s (layout ss) e w.0, sym (length-past pre s))
      (ap (◌∷◌ s) (read-layout t (pre ++ (s ++ 0 ∷ [])) ss (past t.envmem pre s (layout ss) e) w.1))

abbrev zeros : ℕ → List ℕ
zeros n = replicate n 0

length-zeros : (n : ℕ) → length (zeros n) ≡ n
length-zeros n = (let z : ℕ = 0 in length-replicate n z)

drop-zeros : (k n : ℕ) → drop k (zeros n) ≡ zeros (n - k)
drop-zeros zero n = (let e : n ≡ n - 0 = omega arith in ap zeros e)
drop-zeros (suc k) zero = (let e : 0 ≡ 0 - suc k = omega arith in ap zeros e)
drop-zeros (suc k) (suc n) =
    let e : n - k ≡ suc n - suc k = omega arith in drop-zeros k n ∙ ap zeros e

drop-drop_append : (k : ℕ) (pre rest : List ℕ) → drop (length pre + k) (pre ++ rest) ≡ drop k rest
drop-drop_append k [] rest = (let e : 0 + k ≡ k = omega arith in ap (λ j. drop j rest) e)
drop-drop_append k (c ∷ pre) rest =
    let e : suc (length pre) + k ≡ suc (length pre + k) = omega arith in
    ap (λ j. drop j (c ∷ (pre ++ rest))) e ∙ drop-drop_append k pre rest

splice-zeros :
    (done bytes : List ℕ) (n : ℕ)
    → splice (done ++ replicate n 0) (length done) bytes
      ≡ (done ++ bytes) ++ replicate (n - length bytes) 0
unfolding splice
splice-zeros done bytes n =
    rw
      (
        take-append_exact (length done) done (replicate n 0) refl,
        drop-drop_append (length bytes) done (replicate n 0),
        drop-zeros (length bytes) n,
      )
      (sym (append_assoc done bytes (replicate (n - length bytes) 0)))

assemble : (xs s rest : List ℕ) → (xs ++ (s ++ 0 ∷ [])) ++ rest ≡ xs ++ (s ++ 0 ∷ rest)
assemble xs s rest = simp append_assoc

-- The loop, behind the strings in `pre` (where it reads) and `done` (where it writes).
move_environ-layout :
    (t : Titles) (pre done : List ℕ) (ss : List (List ℕ))
    → t.args ≡ pre ++ layout ss
    → Texts ss
    → move_environ t
        (map in_args (offsets (length pre) ss))
        (length done)
        (done ++ replicate (need_mem ss) 0)
      ≡ (map in_envmem (offsets (length done) ss), done ++ layout ss)
unfolding move_environ offsets layout need_mem read
move_environ-layout t pre done [] e w = refl
move_environ-layout t pre done (s ∷ ss) e w =
    let bytes = s ++ 0 ∷ [] in
    let left : length s + 1 + need_mem ss - length bytes ≡ need_mem ss =
      omega (arith, length-append s (0 ∷ [])) in
    let ih =
      move_environ-layout t (pre ++ bytes) (done ++ bytes) ss (past t.args pre s (layout ss) e)
        w.1 in
    rw
      (
        string_here t.args pre s (layout ss) e w.0,
        splice-zeros done bytes (length s + 1 + need_mem ss),
        left,
        sym (length-past pre s),
        sym (length-past done s),
        ih,
      )
      (ap (λ m. (in_envmem (length done) ∷ map in_envmem (offsets (length (done ++ bytes)) ss), m))
        (assemble done s (layout ss)))

abbrev Moved : List (List ℕ) → List (List ℕ) → Titles → Type 0
Moved argv env t =
    (t.args ≡ layout argv ++ layout env)
    × ((t.environ ≡ map in_envmem (offsets 0 env)) × (t.envmem ≡ layout env))

init-Moved :
    (argv env : List (List ℕ))
    → Texts env
    → Moved argv env (ngx_init_setproctitle (at_start argv env))
unfolding ngx_init_setproctitle at_start
init-Moved argv env w =
    let start : Titles = at_start argv env in
    let e = move_environ-layout start (layout argv) [] env refl w in
    let begin =
      ap (λ k. move_environ start (map in_args (offsets k env)) 0 (zeros (need_mem env)))
        (sym (length-layout argv)) in
    (refl, (ap (λ r. r.0) (begin ∙ e), ap (λ r. r.1) (begin ∙ e)))

drop_all : (xs : List ℕ) (n : ℕ) → length xs ≤ n → drop n xs ≡ []
drop_all [] zero h = refl
drop_all [] (suc n) h = refl
drop_all (x ∷ xs) zero h = absurd (omega (arith, h))
drop_all (x ∷ xs) (suc n) h = drop_all xs n (omega (arith, h))

-- The two writes of ngx_setproctitle fill the memory, from its first byte to its last.
write_title :
    (args title : List ℕ) (n : ℕ)
    → length args ≡ length title + n
    → 0 < n
    → splice (splice args 0 (title ++ 0 ∷ [])) (length title) (zeros n) ≡ title ++ zeros n
unfolding splice
write_title args title n e h =
    let rest = drop (0 + length (title ++ 0 ∷ [])) args in
    let first : take 0 args ++ ((title ++ 0 ∷ []) ++ rest) ≡ title ++ 0 ∷ rest =
      append_assoc title (0 ∷ []) rest in
    rw (first, take-append_exact (length title) title (0 ∷ rest) refl)
      (ap (λ r. title ++ (zeros n ++ r))
          (drop_all (title ++ 0 ∷ rest) (length title + length (zeros n)) (
            omega (
              arith,
              e,
              h,
              length-append title (0 ∷ rest),
              length-drop (0 + length (title ++ 0 ∷ [])) args,
              length-append title (0 ∷ []),
              length-zeros n,
            )))
        ∙ ap (λ r. title ++ r) (append-nil (zeros n)))

-- The process behind the setting of a title: the strings of the environment read as before, nothing is
-- written behind the memory that main counted, and a title that fits is what stands in it.
pub record Shown (argv env : List (List ℕ)) (title : List ℕ) (t : Titles) : Type 0 where
  pub environ_kept : map (read t) t.environ ≡ env
  pub block_filled : length t.envmem ≡ need_mem env
  pub in_bounds : length t.args ≡ need_mem argv + need_mem env
  pub fits :
      length title < need_mem argv + need_mem env
      → (read t (in_args 0) ≡ title)
        × (t.args ≡ title ++ zeros (need_mem argv + need_mem env - length title))
  pub too_long : need_mem argv + need_mem env ≤ length title → t.args ≡ layout argv ++ layout env

zeros-front : (n : ℕ) → 0 < n → zeros n ≡ 0 ∷ zeros (n - 1)
zeros-front zero h = absurd (omega (arith, h))
zeros-front (suc n) h = (let e : n ≡ suc n - 1 = omega arith in ap (λ k. 0 ∷ zeros k) e)

abbrev need : Titles → ℕ
need t = t.argvneedmem + t.envneedmem

record Written (title : List ℕ) (t u : Titles) : Type 0 where
  same_environ : u.environ ≡ t.environ
  same_envmem : u.envmem ≡ t.envmem
  fits : length title < need t → u.args ≡ title ++ zeros (need t - length title)
  too_long : need t ≤ length title → u.args ≡ t.args

setproctitle-Written :
    (title : List ℕ) (t : Titles)
    → length t.args ≡ need t
    → Written title t (ngx_setproctitle title t)
unfolding ngx_setproctitle
setproctitle-Written title t e = elim (Bool-cases (leb (need t) (length title))) [
  | inl f ↦ rw f (record {
    same_environ = refl;
    same_envmem = refl;
    fits = λ h. absurd (omega (arith, h, leb→le _ _ f));
    too_long = λ h. refl;
  })
  | inr f ↦ rw f (record {
    same_environ = refl;
    same_envmem = refl;
    fits = λ h.
        write_title t.args title (need t - length title) (omega (arith, e, h)) (omega (arith, h));
    too_long = λ h. absurd (omega (arith, h, leb-false _ _ f));
  })
]

read_title :
    (t : Titles) (title : List ℕ) (n : ℕ)
    → Text title
    → t.args ≡ title ++ zeros n
    → 0 < n
    → read t (in_args 0) ≡ title
unfolding read
read_title t title n x e h =
    ap c_string (e ∙ ap (λ z. title ++ z) (zeros-front n h))
    ∙ c_string-append title (zeros (n - 1)) x

length-title :
    (args title : List ℕ) (k : ℕ)
    → args ≡ title ++ zeros (k - length title)
    → length title < k
    → length args ≡ k
length-title args title k e h = omega (
  arith,
  ap length e,
  length-append title (zeros (k - length title)),
  length-zeros (k - length title),
  h,
)

-- Where ngx_init_setproctitle has moved the environment, and neither its strings nor the title hold a zero, the
-- pointers of the environment still lead to its strings behind ngx_setproctitle, in a block that they fill; the
-- memory of the arguments and the old environment keeps its size, holds the title and zeros behind it where the
-- title is shorter, so that argv[0] is read as the title, and is unchanged where it is not.
pub setproctitle-Shown :
    (argv env : List (List ℕ)) (title : List ℕ)
    → Texts env
    → Text title
    → Shown argv env title (ngx_setproctitle title (ngx_init_setproctitle (at_start argv env)))
unfolding ngx_init_setproctitle at_start
setproctitle-Shown argv env title w x =
    let t = ngx_init_setproctitle (at_start argv env) in
    let u = ngx_setproctitle title t in
    let k = need_mem argv + need_mem env in
    let (a, (p, m)) = init-Moved argv env w in
    let size : length t.args ≡ k = omega (
      arith,
      ap length a,
      length-append (layout argv) (layout env),
      length-layout argv,
      length-layout env,
    ) in
    let s = setproctitle-Written title t size in
    let mem = s.same_envmem ∙ m in
    record {
      environ_kept = ap (map (read u)) (s.same_environ ∙ p) ∙ read-layout u [] env mem w;
      block_filled = ap length mem ∙ length-layout env;
      in_bounds = elim (dec_lt (length title) k) [
        | yes h ↦ length-title u.args title k (s.fits h) h
        | no h ↦ ap length (s.too_long (omega (arith, h))) ∙ size
      ];
      fits = λ h. (read_title u title (k - length title) x (s.fits h) (omega (arith, h)), s.fits h);
      too_long = λ h. s.too_long h ∙ a;
    }
