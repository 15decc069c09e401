-- ===== src/Threads/Places.antt =====
-- Counting the threads of the pool by their places, and which of them may have the mutex.
use linux_c_study.Prelude.{
  ℕ, zero, suc, ◌+◌, ◌≡◌, ◌≢◌, ◌⊎◌, inl, inr, refl, sym, ap, ◌∙◌, List, [], ◌∷◌, Option, none, some,
  Bool, true, false, arith, map, get_elem?, set,
}
use mathlib.Core.Option.{some_inj}
use linux_c_study.Threads.Workers.{
  Place, at_lock, checking, going_to_wait, asleep, woken, holding, working, returned, wake, Locks,
  first, again,
}

-- Between lock and unlock; at work, counted; with a message that is not finished.
abbrev pub inside : Place → Bool
inside checking = true
inside going_to_wait = true
inside p = false

abbrev pub runs : Place → ℕ
runs (working m) = 1
runs p = 0

abbrev pub holds : Place → ℕ
holds (working m) = 1
holds (holding m) = 1
holds p = 0

unfoldable pub total : (Place → ℕ) → List Place → ℕ
total f [] = 0
total f (p ∷ ps) = f p + total f ps

pub total-set :
    (f : Place → ℕ) (ps : List Place) (i : ℕ) (p q : Place)
    → get_elem? ps i ≡ some p
    → total f (set ps i q) + f p ≡ total f ps + f q
unfolding total
total-set f [] i p q e = cc
total-set f (x ∷ ps) zero p q e = omega (arith, ap f (some_inj.0 e))
total-set f (x ∷ ps) (suc i) p q e = omega (arith, total-set f ps i p q e)

pub total-wake :
    (f : Place → ℕ) (ps : List Place) → f asleep ≡ f woken → total f (map wake ps) ≡ total f ps
unfolding total
total-wake f [] e = refl
total-wake f (asleep ∷ ps) e = omega (arith, total-wake f ps e)
total-wake f (at_lock ∷ ps) e = omega (arith, total-wake f ps e)
total-wake f (checking ∷ ps) e = omega (arith, total-wake f ps e)
total-wake f (going_to_wait ∷ ps) e = omega (arith, total-wake f ps e)
total-wake f (woken ∷ ps) e = omega (arith, total-wake f ps e)
total-wake f (holding m ∷ ps) e = omega (arith, total-wake f ps e)
total-wake f (working m ∷ ps) e = omega (arith, total-wake f ps e)
total-wake f (returned ∷ ps) e = omega (arith, total-wake f ps e)

-- A thread behind a move is the one that moved, or it was there before.
pub get-set :
    (ps : List Place) (i j : ℕ) (p q : Place)
    → get_elem? (set ps i p) j ≡ some q
    → ((j ≡ i) × (q ≡ p)) ⊎ ((j ≢ i) × (get_elem? ps j ≡ some q))
get-set [] i j p q e = cc
get-set (x ∷ ps) zero zero p q e = inl (refl, sym (some_inj.0 e))
get-set (x ∷ ps) zero (suc j) p q e = inr (λ z. absurd (omega (arith, z)), e)
get-set (x ∷ ps) (suc i) zero p q e = inr (λ z. absurd (omega (arith, z)), e)
get-set (x ∷ ps) (suc i) (suc j) p q e = elim (get-set ps i j p q e) [
  | inl h ↦ inl (ap suc h.0, h.1)
  | inr h ↦ inr (λ z. h.0 (omega (arith, z)), h.1)
]

pub inside-wake :
    (ps : List Place) (j : ℕ) (q : Place)
    → get_elem? (map wake ps) j ≡ some q
    → inside q ≡ true
    → get_elem? ps j ≡ some q
inside-wake [] j q e h = cc
inside-wake (p ∷ ps) (suc j) q e h = inside-wake ps j q e h
inside-wake (asleep ∷ ps) zero q e h = (let z : false ≡ true = ap inside (some_inj.0 e) ∙ h in cc)
inside-wake (at_lock ∷ ps) zero q e h = e
inside-wake (checking ∷ ps) zero q e h = e
inside-wake (going_to_wait ∷ ps) zero q e h = e
inside-wake (woken ∷ ps) zero q e h = e
inside-wake (holding m ∷ ps) zero q e h = e
inside-wake (working m ∷ ps) zero q e h = e
inside-wake (returned ∷ ps) zero q e h = e

-- The thread that is between lock and unlock is the one that has the mutex.
abbrev pub Exclusive : List Place → Option ℕ → Type 0
Exclusive ps mutex =
    (j : ℕ) (q : Place) → get_elem? ps j ≡ some q → inside q ≡ true → mutex ≡ some j

pub Exclusive-lock :
    (ps : List Place) (i : ℕ) → Exclusive ps none → Exclusive (set ps i checking) (some i)
Exclusive-lock ps i x j q e h = elim (get-set ps i j checking q e) [
  | inl (z, _) ↦ ap some (sym z)
  | inr (_, g) ↦ (let z = x j q g h in cc)
]

pub Exclusive-unlock :
    (ps : List Place) (i : ℕ) (old p : Place) (m m' : Option ℕ)
    → get_elem? ps i ≡ some old
    → inside old ≡ true
    → inside p ≡ false
    → Exclusive ps m
    → Exclusive (set ps i p) m'
Exclusive-unlock ps i old p m m' g o n x j q e h = elim (get-set ps i j p q e) [
  | inl (_, z) ↦ (let c : false ≡ true = sym n ∙ ap inside (sym z) ∙ h in cc)
  | inr (ne, g') ↦ absurd (ne (some_inj.0 (sym (x j q g' h) ∙ x i old g o)))
]

pub Exclusive-move :
    (ps : List Place) (i : ℕ) (old p : Place) (m : Option ℕ)
    → get_elem? ps i ≡ some old
    → (inside p ≡ true → inside old ≡ true)
    → Exclusive ps m
    → Exclusive (set ps i p) m
Exclusive-move ps i old p m g o x j q e h = elim (get-set ps i j p q e) [
  | inl (z, y) ↦ x i old g (o (ap inside (sym y) ∙ h)) ∙ ap some (sym z)
  | inr (_, g') ↦ x j q g' h
]

-- A move changes nothing where both places count alike.
pub same-total :
    (f : Place → ℕ) (ps : List Place) (i : ℕ) (p q : Place)
    → get_elem? ps i ≡ some p
    → f p ≡ f q
    → total f (set ps i q) ≡ total f ps
same-total f ps i p q e h = omega (arith, total-set f ps i p q e)

pub counts-lock : (p : Place) → Locks p → (runs p ≡ 0) × (holds p ≡ 0)
counts-lock p first = (refl, refl)
counts-lock p again = (refl, refl)
