-- ===== src/Net/Memory.antt =====
-- linux_c++_6_4/nginx/misc/ngx_c_memory.cxx, and the message that a receive buffer holds.
-- A block is known by its address; `live` lists the addresses that are allocated and not freed.
use linux_c_study.Prelude.{
  ℕ, ◌+◌, ◌-◌, ◌<◌, ◌≡◌, ◌≢◌, refl, arith, count, length, List, [], ◌∷◌, Bool, true, false, ◌==◌,
  if◌then◌else◌, bytes_from,
}

pub record Memory : Type 0 where
  pub next : ℕ
  pub live : List ℕ

-- `new` never fails here: the source lets the program stop where it does.
unfoldable pub alloc_memory : Memory → ℕ × Memory
alloc_memory m = (m.next, record { next = m.next + 1; live = m.next ∷ m.live })

unfoldable pub remove : ℕ → List ℕ → List ℕ
remove a [] = []
remove a (b ∷ bs) = if a == b then bs else b ∷ remove a bs

unfoldable pub free_memory : ℕ → Memory → Memory
unfolding remove
free_memory a m = record m { live = remove a m.live }

-- The contents of a block of n bytes: cleared by `memset`, or what `new char[n]` left there.
unfoldable pub contents : ℕ → Bool → (ℕ → ℕ) → List ℕ
contents n true fill = bytes_from n 0 (λ i. 0)
contents n false fill = bytes_from n 0 fill

pub count-remove_self : (a : ℕ) (bs : List ℕ) → count a (remove a bs) ≡ count a bs - 1
unfolding remove
count-remove_self a [] = omega arith
count-remove_self a (b ∷ bs) = ground (arith, count-remove_self a bs)

pub count-remove_ne : (a b : ℕ) (bs : List ℕ) → a ≢ b → count a (remove b bs) ≡ count a bs
unfolding remove
count-remove_ne a b [] h = refl
count-remove_ne a b (c ∷ bs) h = ground (arith, count-remove_ne a b bs h)

pub length-remove : (a : ℕ) (bs : List ℕ) → 0 < count a bs → length (remove a bs) + 1 ≡ length bs
unfolding remove
length-remove a [] h = absurd (omega arith)
length-remove a (b ∷ bs) h = ground (arith, length-remove a bs)
