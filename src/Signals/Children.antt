-- ===== src/Signals/Children.antt =====
-- What registering the signals leaves, and what the loop over waitpid() reports.
use linux_c_study.Prelude.{
  ℕ, ◌+◌, ◌*◌, ◌/◌, ◌%◌, ◌^◌, ◌<◌, ◌≡◌, ◌≢◌, ◌⊎◌, inl, inr, refl, ap, sym, subst, arith, ==_iff,
  ==-false, List, [], ◌∷◌, ◌++◌, some, Bool, true, false, Bool-cases, ◌==◌, ℤ, pos, negsuc,
}
use linux_c_study.Net.Request.{eintr}
use linux_c_study.Signals.{
  Signal, signals, init_signals_loop, ngx_init_signals, ChildResult, no_change, wait_failed, child,
  Message, waitpid_failed, exited_on_signal, exited_with_code, echild, term_signal, child_message,
  failure, get_status_loop, ngx_process_get_status,
}

-- Results of waitpid() that are children, in this order, and interruptions in between.
pub data Reports : List ChildResult → List (ℕ × ℕ) → Type 0 where
  nothing : Reports [] []
  interrupted :
      {rs : List ChildResult} {cs : List (ℕ × ℕ)}
      → Reports rs cs
      → Reports (wait_failed eintr ∷ rs) cs
  reported :
      {rs : List ChildResult} {cs : List (ℕ × ℕ)} (pid status : ℕ)
      → Reports rs cs
      → Reports (child pid status ∷ rs) ((pid, status) ∷ cs)

-- A result that ends the loop.
pub data Ends : ChildResult → Type 0 where
  unchanged : Ends no_change
  failed : (err : ℕ) → (err == eintr) ≡ false → Ends (wait_failed err)

-- The line for a child: the low seven bits of its status are the signal that ended it; where they are zero, the next
-- eight are the code that it returned.
pub data Told : ℕ × ℕ → Message → Type 0 where
  by_code :
      {pid status code : ℕ} (high : ℕ)
      → code < 256
      → status ≡ (high * 256 + code) * 256 + status % 256
      → status % 128 ≡ 0
      → Told (pid, status) (exited_with_code pid code)
  by_signal :
      {pid status signo : ℕ} (high : ℕ)
      → 0 < signo
      → signo < 128
      → status ≡ high * 128 + signo
      → Told (pid, status) (exited_on_signal pid signo)

-- A line for each child, in their order.
pub data AllTold : List (ℕ × ℕ) → List Message → Type 0 where
  none_told : AllTold [] []
  told :
      {c : ℕ × ℕ} {cs : List (ℕ × ℕ)} {m : Message} {ms : List Message}
      → Told c m
      → AllTold cs ms
      → AllTold (c ∷ cs) (m ∷ ms)

-- The lines for the result that ends the loop, behind these children; 7 is the level of an information, 2 that of
-- an alert.
pub data Closes : List (ℕ × ℕ) → ChildResult → List Message → Type 0 where
  quiet : {cs : List (ℕ × ℕ)} → Closes cs no_change []
  no_more : {c : ℕ × ℕ} {cs : List (ℕ × ℕ)} → Closes (c ∷ cs) (wait_failed echild) []
  no_children : Closes [] (wait_failed echild) (waitpid_failed 7 echild ∷ [])
  alert :
      {cs : List (ℕ × ℕ)} {err : ℕ}
      → err ≢ echild
      → err ≢ eintr
      → Closes cs (wait_failed err) (waitpid_failed 2 err ∷ [])

child_message-Told : (pid status : ℕ) → Told (pid, status) (child_message pid status)
child_message-Told pid status = elim (Bool-cases (term_signal status == 0)) [
  | inl e ↦
      rw e (by_code (status / 2 ^ 16) (omega arith) (omega arith) (omega (arith, (==_iff _ _).0 e)))
  | inr e ↦
      rw e (by_signal (status / 2 ^ 7) (omega (arith, ==-false _ _ e)) (omega arith) (omega arith))
]

messages : List (ℕ × ℕ) → List Message
messages [] = []
messages ((pid, status) ∷ cs) = child_message pid status ∷ messages cs

seen : Bool → List (ℕ × ℕ) → Bool
seen one [] = one
seen one (c ∷ cs) = true

ending : Bool → ChildResult → List Message
ending one no_change = []
ending one (wait_failed err) = failure one err
ending one (child pid status) = []

seen-true : (cs : List (ℕ × ℕ)) → seen true cs ≡ true
unfolding seen
seen-true [] = refl
seen-true (c ∷ cs) = refl

get_status_loop-messages :
    (one : Bool) (rs : List ChildResult) (cs : List (ℕ × ℕ)) (last : ChildResult)
    (later : List ChildResult)
    → Reports rs cs
    → Ends last
    → get_status_loop one (rs ++ last ∷ later) ≡ some (messages cs ++ ending (seen one cs) last)
unfolding get_status_loop messages seen ending
get_status_loop-messages one rs cs last later nothing unchanged = refl
get_status_loop-messages one rs cs last later nothing (failed err e) = rw e refl
get_status_loop-messages one rs cs last later (interrupted r) h =
    get_status_loop-messages one _ cs last later r h
get_status_loop-messages one rs cs last later (reported {rs = rs'} {cs = cs'} pid status r) h =
    rw (get_status_loop-messages true rs' cs' last later r h, seen-true cs') refl

failure-Closes :
    (cs : List (ℕ × ℕ)) (err : ℕ)
    → (err == eintr) ≡ false
    → Closes cs (wait_failed err) (failure (seen false cs) err)
unfolding seen
failure-Closes cs err n = elim (Bool-cases (err == echild)) [
  | inr e ↦ rw e (alert (==-false _ _ e) (==-false _ _ n))
  | inl e ↦
      subst (λ x. Closes cs (wait_failed x) (failure (seen false cs) x)) (sym ((==_iff _ _).0 e))
        (known cs)
]
  where
    known : (ds : List (ℕ × ℕ)) → Closes ds (wait_failed echild) (failure (seen false ds) echild)
    known [] = no_children
    known (c ∷ ds) = no_more

messages-AllTold : (cs : List (ℕ × ℕ)) → AllTold cs (messages cs)
unfolding messages
messages-AllTold [] = none_told
messages-AllTold ((pid, status) ∷ cs) = told (child_message-Told pid status) (messages-AllTold cs)

ending-Closes :
    (cs : List (ℕ × ℕ)) (last : ChildResult)
    → Ends last
    → Closes cs last (ending (seen false cs) last)
unfolding ending
ending-Closes cs last unchanged = quiet
ending-Closes cs last (failed err n) = failure-Closes cs err n

-- Called behind the end of child processes, ngx_process_get_status goes on through interruptions, writes a line about
-- each child that waitpid() yields, in their order, with the code that it returned or the signal that ended it, and
-- stops at the first result that is neither. Where that is an error, a line follows: an information where there
-- are no children and none was seen, none where there are no further children, and an alert otherwise.
pub process_get_status-messages :
    (rs : List ChildResult) (cs : List (ℕ × ℕ)) (last : ChildResult) (later : List ChildResult)
    → Reports rs cs
    → Ends last
    → (lines : List Message) × ((closing : List Message) × ((ngx_process_get_status
              (rs ++ last ∷ later)
            ≡ some (lines ++ closing))
          × (AllTold cs lines × Closes cs last closing)))
unfolding ngx_process_get_status
process_get_status-messages rs cs last later r h = (
  messages cs,
  (
    ending (seen false cs) last,
    (
      get_status_loop-messages false rs cs last later r h,
      (messages-AllTold cs, ending-Closes cs last h),
    ),
  ),
)

unfoldable pub AllSet : (Signal → Bool) → List Signal → Type 0
AllSet sigaction [] = Unit
AllSet sigaction (s ∷ ss) = (sigaction s ≡ true) × AllSet sigaction ss

-- The signals in front of the first that could not be registered, or all.
unfoldable pub Registered : (Signal → Bool) → List Signal → List Signal × ℤ → Type 0
Registered sigaction table (set, ret) =
    AllSet sigaction set
    × (((ret ≡ pos 0) × (set ≡ table))
        ⊎ ((ret ≡ negsuc 0)
            × ((sig : Signal) × ((rest : List Signal) × ((table ≡ set ++ sig ∷ rest)
                    × (sigaction sig ≡ false))))))

init_signals_loop-Registered :
    (sigaction : Signal → Bool) (table : List Signal)
    → Registered sigaction table (init_signals_loop sigaction table)
unfolding init_signals_loop AllSet Registered
init_signals_loop-Registered sigaction [] = (tt, inl (refl, refl))
init_signals_loop-Registered sigaction (sig ∷ rest) = elim (Bool-cases (sigaction sig)) [
  | inr e ↦ rw e (tt, inr (refl, (sig, (rest, (refl, e)))))
  | inl e ↦
      let (a, o) = init_signals_loop-Registered sigaction rest in
      rw e (
        (e, a),
        elim o [
          | inl (z, y) ↦ inl (z, ap (λ xs. sig ∷ xs) y)
          | inr (z, (s, (r, (y, n)))) ↦ inr (z, (s, (r, (ap (λ xs. sig ∷ xs) y, n))))
        ],
      )
]

-- ngx_init_signals registers the signals in their order and stops at the first that sigaction() refuses: it returns
-- 0 where all are registered, and else -1, with those in front of that one registered.
pub init_signals-Registered :
    (sigaction : Signal → Bool) → Registered sigaction signals (ngx_init_signals sigaction)
unfolding ngx_init_signals
init_signals-Registered sigaction = init_signals_loop-Registered sigaction signals
