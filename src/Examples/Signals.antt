-- ===== src/Examples/Signals.antt =====
-- Two children end, with an interruption in between.
use linux_c_study.Prelude.{ℕ, ◌≡◌, refl, List, [], ◌∷◌, ◌++◌, some}
use linux_c_study.Net.Request.{eintr}
use linux_c_study.Signals.{ChildResult, Message, wait_failed, child, echild, ngx_process_get_status}
use linux_c_study.Signals.Children.{
  nothing, interrupted, reported, failed, AllTold, Closes, process_get_status-messages,
}

abbrev results : List ChildResult
results = child 40 9 ∷ wait_failed eintr ∷ child 41 256 ∷ []

abbrev children : List (ℕ × ℕ)
children = (40, 9) ∷ (41, 256) ∷ []

process_get_status-messages_example :
    (lines : List Message) × ((closing : List Message) × ((ngx_process_get_status
            (results ++ wait_failed echild ∷ [])
          ≡ some (lines ++ closing))
        × (AllTold children lines × Closes children (wait_failed echild) closing)))
process_get_status-messages_example =
    process_get_status-messages results children (wait_failed echild) []
      (reported 40 9 (interrupted (reported 41 256 nothing))) (failed echild refl)
