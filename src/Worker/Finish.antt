-- ===== src/Worker/Finish.antt =====
-- A message that a pool thread takes, works on and frees, and the owners of blocks.
use linux_c_study.Prelude.{
  ℕ, ◌+◌, ◌≤◌, ◌≡◌, subst, ap, ◌∙◌, arith, List, [], ◌∷◌, ◌++◌, Option, some, Bool, true, false,
  count, count-append, if◌then◌else◌, ℕ_discrete,
}
use linux_c_study.Net.Memory.{
  Memory, alloc_memory, free_memory, remove, count-remove_self, count-remove_ne,
}
use linux_c_study.Net.Conn.{Msg}
use linux_c_study.Net.Socket.{Server}
use linux_c_study.Net.Events.Kept.{SameLists-IsValid}
use linux_c_study.Threads.{ThreadPool}
use linux_c_study.Worker.{Job, taken, selected, returned, pop, free_job}
use linux_c_study.Worker.Blocks.{owned, queue_blocks, AllFilled}
use linux_c_study.Worker.Balance.{Balanced, same-Balanced}
use linux_c_study.Worker.Rounds.{Sound}
use linux_c_study.Worker.Jobs.{Worked}

-- The block of an answer, where one is made.
abbrev pub reply : Bool → Memory → List ℕ
reply made m = if made then m.next ∷ [] else []

count-made :
    (a : ℕ) (made : Bool) (m : Memory)
    → count a ((if made then (alloc_memory m).1 else m).live)
      ≡ count a m.live + count a (reply made m)
unfolding alloc_memory
count-made a true m = ground arith
count-made a false m = omega arith

count-remove_one :
    (a b : ℕ) (bs : List ℕ) → 1 ≤ count b bs → count a (remove b bs) + count a (b ∷ []) ≡ count a bs
count-remove_one a b bs h = elim (ℕ_discrete a b) [
  | yes e ↦ rw e (ground (arith, h, count-remove_self b bs))
  | no n ↦ ground (arith, n, count-remove_ne a b bs n)
]

made-once :
    (a : ℕ) (made : Bool) (m : Memory)
    → ((c : ℕ) → count c m.live ≤ 1)
    → ((c : ℕ) → m.next ≤ c → count c m.live ≡ 0)
    → (count a m.live + count a (reply made m) ≤ 1)
      × ((if made then (alloc_memory m).1 else m).next ≤ a
          → count a m.live + count a (reply made m) ≡ 0)
unfolding alloc_memory
made-once a true m o f =
    (ground (arith, o a, f m.next (omega arith)), λ h. ground (arith, f a (omega (arith, h)), h))
made-once a false m o f = (omega (arith, o a), λ h. omega (arith, f a h))

count-queue :
    (a : ℕ) (m : Msg) (rest q : List (Option Msg))
    → q ≡ some m ∷ rest
    → count a (queue_blocks q) ≡ count a (owned (some m)) + count a (queue_blocks rest)
unfolding queue_blocks
count-queue a m rest q e =
    ap (λ x. count a (queue_blocks x)) e ∙ count-append a (owned (some m)) (queue_blocks rest)

filled-rest :
    (m : Msg) (rest q : List (Option Msg)) → q ≡ some m ∷ rest → AllFilled q → AllFilled rest
unfolding AllFilled
filled-rest m rest q e f = (subst AllFilled e f).1

-- The blocks of the messages in the hands of pool threads.
abbrev pub in_hand : Job → Msg
in_hand (taken m) = m
in_hand (selected m command body) = m
in_hand (returned m) = m

unfoldable pub hand_blocks : List Job → List ℕ
hand_blocks [] = []
hand_blocks (j ∷ js) = (in_hand j).addr ∷ hand_blocks js

pub count-hand_blocks :
    (a : ℕ) (before : List Job) (j : Job) (after : List Job)
    → count a (hand_blocks (before ++ j ∷ after))
      ≡ count a ((in_hand j).addr ∷ []) + count a (hand_blocks (before ++ after))
unfolding hand_blocks
count-hand_blocks a [] j after = count-append a ((in_hand j).addr ∷ []) (hand_blocks after)
count-hand_blocks a (b ∷ bs) j after = omega (
  arith,
  count-hand_blocks a bs j after,
  count-append a ((in_hand b).addr ∷ []) (hand_blocks (bs ++ j ∷ after)),
  count-append a ((in_hand b).addr ∷ []) (hand_blocks (bs ++ after)),
)

-- Only how often a block is in the list of those that belong elsewhere matters.
pub count-Sound :
    (lost lost' : List ℕ) (s : Server)
    → ((a : ℕ) → count a lost' ≡ count a lost)
    → Sound lost s
    → Sound lost' s
count-Sound lost lost' s e g = record {
  valid = g.valid;
  balanced = record {
    accounted = λ a. omega (arith, g.balanced.accounted a, e a);
    once = g.balanced.once;
    fresh = g.balanced.fresh;
    filled = g.balanced.filled;
    tidy = g.balanced.tidy;
    idle = g.balanced.idle;
    sending = g.balanced.sending;
  };
}

pub take-Sound :
    (lost : List ℕ) (m : Msg) (rest : List (Option Msg)) (s : Server)
    → s.pool.msg_recv_queue ≡ some m ∷ rest
    → Sound lost s
    → Sound (m.addr ∷ lost) (pop rest s)
take-Sound lost m rest s e g = record {
  valid = g.valid;
  balanced = record {
    accounted = λ a. omega (
      arith,
      g.balanced.accounted a,
      count-queue a m rest s.pool.msg_recv_queue e,
      count-append a (m.addr ∷ []) lost,
    );
    once = g.balanced.once;
    fresh = g.balanced.fresh;
    filled = filled-rest m rest _ e g.balanced.filled;
    tidy = g.balanced.tidy;
    idle = g.balanced.idle;
    sending = g.balanced.sending;
  };
}

pub run-Sound :
    (lost : List ℕ) (made : Bool) (s t : Server)
    → Worked made s t
    → Sound lost s
    → Sound (reply made s.memory ++ lost) t
run-Sound lost made s t w g = record {
  valid = SameLists-IsValid s.socket t.socket w.lists g.valid;
  balanced = record {
    accounted = λ a.
        rw (ap (λ (p : ThreadPool). p.msg_recv_queue) w.pool)
          (omega (arith, live a, h.accounted a, count-append a (reply made s.memory) lost));
    once = λ a. omega (arith, live a, (both a).0);
    fresh =
        λ a le. omega (arith, live a, (both a).1 (subst (λ (x : Memory). x.next ≤ a) w.memory le));
    filled = rw (ap (λ (p : ThreadPool). p.msg_recv_queue) w.pool) g.balanced.filled;
    tidy = h.tidy;
    idle = h.idle;
    sending = h.sending;
  };
}
  where
    h : Balanced lost (record s { socket = t.socket })
    h = same-Balanced lost s t.socket w.holders g.balanced

    live : (a : ℕ) → count a t.memory.live ≡ count a s.memory.live + count a (reply made s.memory)
    live a = ap (λ (x : Memory). count a x.live) w.memory ∙ count-made a made s.memory

    both :
        (a : ℕ)
        → (count a s.memory.live + count a (reply made s.memory) ≤ 1)
          × ((if made then (alloc_memory s.memory).1 else s.memory).next ≤ a
              → count a s.memory.live + count a (reply made s.memory) ≡ 0)
    both a = made-once a made s.memory g.balanced.once g.balanced.fresh

pub free-Sound :
    (lost : List ℕ) (m : Msg) (s : Server) → Sound (m.addr ∷ lost) s → Sound lost (free_job m s)
unfolding free_job free_memory
free-Sound lost m s g = record {
  valid = g.valid;
  balanced = record {
    accounted =
        λ a. omega (arith, gone a, g.balanced.accounted a, count-append a (m.addr ∷ []) lost);
    once = λ a. omega (arith, gone a, g.balanced.once a);
    fresh = λ a le. omega (arith, gone a, g.balanced.fresh a le);
    filled = g.balanced.filled;
    tidy = g.balanced.tidy;
    idle = g.balanced.idle;
    sending = g.balanced.sending;
  };
}
  where
    held : 1 ≤ count m.addr s.memory.live
    held = ground (arith, g.balanced.accounted m.addr)

    gone :
        (a : ℕ)
        → count a (remove m.addr s.memory.live) + count a (m.addr ∷ []) ≡ count a s.memory.live
    gone a = count-remove_one a m.addr s.memory.live held
