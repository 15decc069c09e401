-- ===== src/Net/Send.antt =====
-- What sendproc makes of the results of send().
use linux_c_study.Prelude.{ℕ, zero, suc, ◌≡◌, List, ◌∷◌, ◌++◌, some, false, replicate}
use linux_c_study.Net.Request.{SendResult, send_error, send_outcome, interrupted, sendproc, eintr}

-- However often send() is interrupted by a signal, the loop goes on to the first call that is not, and returns
-- what that call decides: the bytes that were sent, -1 for a full send buffer, -2 for any other error.
pub sendproc-skips :
    (n : ℕ) (r : SendResult) (rs : List SendResult)
    → interrupted r ≡ false
    → sendproc (replicate n (send_error eintr) ++ r ∷ rs) ≡ some (send_outcome r)
unfolding sendproc
sendproc-skips zero r rs h = rw h
sendproc-skips (suc n) r rs h = sendproc-skips n r rs h
