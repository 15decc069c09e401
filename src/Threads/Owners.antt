-- ===== src/Threads/Owners.antt =====
-- Which thread has the mutex, and which threads have returned.
use linux_c_study.Prelude.{
  ℕ, zero, suc, ◌<◌, ◌≡◌, ◌≢◌, inl, inr, refl, sym, ap, subst, ◌∙◌, List, [], ◌∷◌, some, Bool, true,
  false, arith, map, get_elem?, set, length, length-set, length-map, length-replicate, ℕ_discrete,
  replicate,
}
use mathlib.Core.Option.{some_inj}
use linux_c_study.Net.Memory.{Memory}
use linux_c_study.Threads.{shutdown-in_msg}
use linux_c_study.Threads.Workers.{
  Place, at_lock, checking, going_to_wait, asleep, woken, holding, working, returned, Workers,
  create, lock, wait, leave, take_job, begin_job, finish_job, push_job, stop_all, broadcast, Step,
  locked, saw_nothing, waits, wakes, leaves, takes, begins, finishes, pushes, stops, broadcasts,
  wake, Reach, here, next,
}
use linux_c_study.Threads.Places.{inside, get-set}

-- The mutex is with a thread between lock and unlock; a thread returns only when the pool is stopped; and there
-- are threads.
pub record Owned (s : Workers) : Type 0 where
  pub owner :
      (i : ℕ)
      → s.mutex ≡ some i
      → (q : Place) × ((get_elem? s.threads i ≡ some q) × (inside q ≡ true))
  pub stays : (j : ℕ) → get_elem? s.threads j ≡ some returned → s.pool.shutdown ≡ true
  pub any : 0 < length s.threads

abbrev pub has_returned : Place → Bool
has_returned returned = true
has_returned p = false

pub set-here :
    (ps : List Place) (i : ℕ) (old p : Place)
    → get_elem? ps i ≡ some old
    → get_elem? (set ps i p) i ≡ some p
set-here [] i old p e = cc
set-here (x ∷ ps) zero old p e = refl
set-here (x ∷ ps) (suc i) old p e = set-here ps i old p e

pub set-there :
    (ps : List Place) (i j : ℕ) (p : Place) → j ≢ i → get_elem? (set ps i p) j ≡ get_elem? ps j
set-there [] i j p n = refl
set-there (x ∷ ps) zero zero p n = absurd (n refl)
set-there (x ∷ ps) zero (suc j) p n = refl
set-there (x ∷ ps) (suc i) zero p n = refl
set-there (x ∷ ps) (suc i) (suc j) p n = set-there ps i j p (λ e. n (ap suc e))

get-wake :
    (ps : List Place) (j : ℕ) (q : Place)
    → get_elem? ps j ≡ some q
    → get_elem? (map wake ps) j ≡ some (wake q)
get-wake [] j q e = cc
get-wake (p ∷ ps) zero q e = ap (λ x. some (wake x)) (some_inj.0 e)
get-wake (p ∷ ps) (suc j) q e = get-wake ps j q e

wake-inside : (q : Place) → inside q ≡ true → inside (wake q) ≡ true
wake-inside checking e = refl
wake-inside going_to_wait e = refl
wake-inside at_lock e = e
wake-inside asleep e = e
wake-inside woken e = e
wake-inside (holding m) e = e
wake-inside (working m) e = e
wake-inside returned e = e

wake-returned :
    (ps : List Place) (j : ℕ)
    → get_elem? (map wake ps) j ≡ some returned
    → get_elem? ps j ≡ some returned
wake-returned [] j e = e
wake-returned (p ∷ ps) (suc j) e = wake-returned ps j e
wake-returned (asleep ∷ ps) zero e = (let z : false ≡ true = ap has_returned (some_inj.0 e) in cc)
wake-returned (at_lock ∷ ps) zero e = e
wake-returned (checking ∷ ps) zero e = e
wake-returned (going_to_wait ∷ ps) zero e = e
wake-returned (woken ∷ ps) zero e = e
wake-returned (holding m ∷ ps) zero e = e
wake-returned (working m ∷ ps) zero e = e
wake-returned (returned ∷ ps) zero e = e

-- A thread that moves and does not return.
module _ (i : ℕ) (old p : Place) (s : Workers) (g : get_elem? s.threads i ≡ some old)
    (o : Owned s) where
  any-set : 0 < length (set s.threads i p)
  any-set = omega (arith, o.any, length-set s.threads i p)

  stays-set :
      has_returned p ≡ false
      → (j : ℕ) → get_elem? (set s.threads i p) j ≡ some returned
      → s.pool.shutdown ≡ true
  stays-set n j e = elim (get-set s.threads i j p returned e) [
    | inl (_, z) ↦ (let c : true ≡ false = ap has_returned z ∙ n in cc)
    | inr (_, h) ↦ o.stays j h
  ]

  owner-set :
      (inside old ≡ true → inside p ≡ true)
      → (k : ℕ) → s.mutex ≡ some k
      → (q : Place) × ((get_elem? (set s.threads i p) k ≡ some q) × (inside q ≡ true))
  owner-set c k m =
      let (q, (h, n)) = o.owner k m in
      elim (ℕ_discrete k i) [
        | yes e ↦
            let z : old ≡ q =
              some_inj.0 (sym g ∙ subst (λ x. get_elem? s.threads x ≡ some q) e h) in
            (
              p,
              (
                subst (λ x. get_elem? (set s.threads i p) x ≡ some p) (sym e)
                    (set-here s.threads i old p g),
                c (ap inside z ∙ n),
              ),
            )
        | no ne ↦ (q, (set-there s.threads i k p ne ∙ h, n))
      ]

pub Step-Owned : {s t : Workers} → Step s t → Owned s → Owned t
unfolding lock wait leave take_job begin_job finish_job push_job stop_all broadcast
Step-Owned {s} (locked i p g l m) o = record {
  owner = λ k e. (
    checking,
    (
      subst (λ x. get_elem? (set s.threads i checking) x ≡ some checking) (some_inj.0 e)
          (set-here s.threads i p checking g),
      refl,
    ),
  );
  stays = stays-set i p checking s g o refl;
  any = any-set i p checking s g o;
}
Step-Owned {s} (saw_nothing i g e f) o = record {
  owner = owner-set i checking going_to_wait s g o (λ h. refl);
  stays = stays-set i checking going_to_wait s g o refl;
  any = any-set i checking going_to_wait s g o;
}
Step-Owned {s} (waits i g) o = record {
  owner = λ k e. cc;
  stays = stays-set i going_to_wait asleep s g o refl;
  any = any-set i going_to_wait asleep s g o;
}
Step-Owned {s} (wakes i g) o = record {
  owner = owner-set i asleep woken s g o (λ h. h);
  stays = stays-set i asleep woken s g o refl;
  any = any-set i asleep woken s g o;
}
Step-Owned {s} (leaves i g f) o = record {
  owner = λ k e. cc;
  stays = λ j e. f;
  any = any-set i checking returned s g o;
}
Step-Owned {s} (takes i m rest g f e) o = record {
  owner = λ k z. cc;
  stays = stays-set i checking (holding m) s g o refl;
  any = any-set i checking (holding m) s g o;
}
Step-Owned {s} (begins i m g) o = record {
  owner = owner-set i (holding m) (working m) s g o (λ h. h);
  stays = stays-set i (holding m) (working m) s g o refl;
  any = any-set i (holding m) (working m) s g o;
}
Step-Owned {s} (finishes i m g) o = record {
  owner = owner-set i (working m) at_lock s g o (λ h. h);
  stays = stays-set i (working m) at_lock s g o refl;
  any = any-set i (working m) at_lock s g o;
}
Step-Owned {s} (pushes now m e) o = record {
  owner = o.owner;
  stays = λ j h. shutdown-in_msg now m s.pool ∙ o.stays j h;
  any = o.any;
}
Step-Owned {s} stops o = record { owner = o.owner; stays = λ j e. refl; any = o.any }
Step-Owned {s} broadcasts o = record {
  owner =
      λ k e. let (q, (h, n)) = o.owner k e in (wake q, (get-wake s.threads k q h, wake-inside q n));
  stays = λ j e. o.stays j (wake-returned s.threads j e);
  any = omega (arith, o.any, length-map s.threads wake);
}

replicate-returned : (n j : ℕ) → get_elem? (replicate n at_lock) j ≡ some returned → ⊥
replicate-returned zero j e = cc
replicate-returned (suc n) zero e = (let z : false ≡ true = ap has_returned (some_inj.0 e) in cc)
replicate-returned (suc n) (suc j) e = replicate-returned n j e

pub Reach-Owned :
    (n : ℕ) (memory : Memory) {s : Workers} → 0 < n → Reach (create n memory) s → Owned s
unfolding create
Reach-Owned n memory h here = record {
  owner = λ i e. cc;
  stays = λ j e. absurd (replicate-returned n j e);
  any = omega (arith, h, length-replicate n at_lock);
}
Reach-Owned n memory h (next r st) = Step-Owned st (Reach-Owned n memory h r)
