-- ===== src/Net/Recv/Delivery.antt =====
-- What a client that sends whole packages can rely on.
use mathlib.Core.List.{flatten}
use linux_c_study.Prelude.{ℕ, ◌≡◌, ap, subst, ◌∙◌, List, [], ◌++◌, some, map}
use linux_c_study.Net.Recv.{Rx}
use linux_c_study.Net.Recv.Stream.{packages}
use linux_c_study.Net.Recv.Whole.{AllWhole, packages-flatten, packages-AllWhole}
use linux_c_study.Net.Recv.Holds.{Holds, queued}
use linux_c_study.Net.Recv.Refine.{Fits, receive_all, receive_all-Got}

-- A connection waits for a header, and the client sends packages of an allowed length that their headers
-- announce: however recv() cuts the stream, at least one byte and at most as many as were asked for at a time,
-- exactly these packages reach the queue, in order, and the connection waits for a header again.
pub receive_all-delivers :
    (me : ℕ) (fill : ℕ → ℕ) (now : ℕ) (s : Rx) (pkgs chunks : List (List ℕ))
    → Holds me s.conn []
    → Fits me fill now s chunks
    → AllWhole pkgs
    → flatten chunks ≡ flatten pkgs
    → (queued (receive_all me fill now s chunks).pool ≡ queued s.pool ++ map some pkgs)
      × Holds me (receive_all me fill now s chunks).conn []
receive_all-delivers me fill now s pkgs chunks h f w e =
    let g = receive_all-Got me fill now s [] chunks h f in
    let p : packages [] (flatten chunks) ≡ ([], pkgs) =
      ap (packages []) e ∙ packages-flatten pkgs w in
    (
      g.queue ∙ ap (λ r. queued s.pool ++ map some r.1) p,
      subst (λ r. Holds me (receive_all me fill now s chunks).conn r.0) p g.holds,
    )

-- Whatever bytes come to a connection that holds the first bytes of a package, cut in any way into what recv()
-- may bring: what is added to the queue are packages of the length that their header announces, between a
-- header and the largest package that the protocol allows.
pub receive_all-AllWhole :
    (me : ℕ) (fill : ℕ → ℕ) (now : ℕ) (s : Rx) (acc : List ℕ) (chunks : List (List ℕ))
    → Holds me s.conn acc
    → Fits me fill now s chunks
    → (pkgs : List (List ℕ)) × AllWhole pkgs
      × (queued (receive_all me fill now s chunks).pool ≡ queued s.pool ++ map some pkgs)
receive_all-AllWhole me fill now s acc chunks h f = (
  (packages acc (flatten chunks)).1,
  packages-AllWhole acc (flatten chunks),
  (receive_all-Got me fill now s acc chunks h f).queue,
)
