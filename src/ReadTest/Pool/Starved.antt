-- ===== src/ReadTest/Pool/Starved.antt =====
-- What the wrong counter means for the connections that wait for their release.
use linux_c_study.Prelude.{
  ℕ, suc, ◌+◌, ◌%◌, ◌^◌, ◌≤◌, ◌<◌, ◌≡◌, ◌≢◌, inl, inr, refl, ap, ◌∙◌, List, ◌++◌, false, arith,
  length, count, ◌==◌, ltb, pos32, Bool-cases, if◌then◌else◌, select,
}
use linux_c_study.Net.Socket.{Socket, Server, due}
use linux_c_study.Net.Socket.Lifecycle.{start}
use linux_c_study.Net.Socket.Recycling.{neg, recycle_due-select}
use linux_c_study.ReadTest.Pool.{release_due, release_round, recy_connection_round}
use linux_c_study.ReadTest.Pool.Drift.{corrected, corrected_server, release_due-Released}
use linux_c_study.ReadTest.Pool.Runs.{Reach, Counted, Reach-Counted}

-- The lists of the pool and its counters, after r connections left the queue because they were due.
pub record Drifted (r : ℕ) (s : Socket) : Type 0 where
  pub known :
      (a : ℕ)
      → count a s.freeconnection_list + count a s.recyconnection_list ≤ count a s.connection_list
  pub once : (a : ℕ) → count a s.connection_list ≤ 1
  pub free_n : s.free_connection_n ≡ length s.freeconnection_list % 2 ^ 32
  pub total : (s.total_connection_n + r) % 2 ^ 32 ≡ length s.connection_list % 2 ^ 32
  pub recy_n : s.totol_recyconnection_n % 2 ^ 32 ≡ (length s.recyconnection_list + r) % 2 ^ 32

Counted-Drifted : (r : ℕ) (s : Socket) → Counted r s → Drifted r s
unfolding corrected
Counted-Drifted r s v = record {
  known = v.valid.known;
  once = v.valid.once;
  free_n = v.valid.free_n;
  total = v.valid.total;
  recy_n = omega (arith, v.valid.recy_n);
}

-- In every state that a worker of the second server reaches, after its recycling thread released r connections that
-- were due, m_total_connection_n is the number of connections less r, m_totol_recyconnection_n is the length of the
-- waiting queue and r, and m_free_connection_n the length of the free list, all modulo 2 ^ 32; and no connection is
-- in both lists, twice in one, or in one and not in the pool.
pub Reach-Drifted :
    (workers wait threads : ℕ) {r : ℕ} {s : Server}
    → Reach (start workers wait threads) r s
    → Drifted r s.socket
Reach-Drifted workers wait threads h = Counted-Drifted _ _ (Reach-Counted workers wait threads h)

still_counts :
    (r : ℕ) (s : Socket)
    → Counted r s
    → length s.connection_list < 2 ^ 31
    → r < 2 ^ 31
    → pos32 s.total_connection_n ≡ ltb r (length s.connection_list)
unfolding corrected
still_counts r s v h k = ground (arith, v.valid.total, v.an_int)

-- The queue and the free connections behind a round.
abbrev Queues : Socket → List ℕ → List ℕ → Type 0
Queues t waits free = (t.recyconnection_list ≡ waits) × (t.freeconnection_list ≡ free)

corrected-Queues :
    (r : ℕ) (t : Socket) (u : Socket) (waits free : List ℕ)
    → corrected r t ≡ u
    → Queues u waits free
    → Queues t waits free
unfolding corrected
corrected-Queues r t u waits free e q = (
  ap (λ (w : Socket). w.recyconnection_list) e ∙ q.0,
  ap (λ (w : Socket). w.freeconnection_list) e ∙ q.1,
)

release_due-select :
    (stop now r : ℕ) (s : Server)
    → let test = due stop now s.socket in
      let q = s.socket.recyconnection_list in
      Queues
        (release_due (suc (length q)) stop now s).socket
        (select (neg test) q)
        (s.socket.freeconnection_list ++ select test q)
unfolding corrected due
release_due-select stop now r s =
    let fuel = suc (length s.socket.recyconnection_list) in
    let b = release_due-Released fuel stop now r s in
    corrected-Queues (r + b.n) _ _ _ _ (ap (λ (u : Server). u.socket) b.same)
      (recycle_due-select fuel stop now (corrected_server r s) (omega arith))

-- In such a state, with fewer than 2 ^ 31 connections and releases, a round of the recycling thread of a server that is not
-- to stop moves exactly the connections that are due from the waiting queue to the free list, in their order, where
-- fewer connections were released before than the pool has, and else moves none.
pub round-select :
    (workers wait threads stop now : ℕ) {r : ℕ} {s : Server}
    → Reach (start workers wait threads) r s
    → length s.socket.connection_list < 2 ^ 31
    → r < 2 ^ 31
    → stop ≢ 1
    → let test = due stop now s.socket in
      let q = s.socket.recyconnection_list in
      let free = s.socket.freeconnection_list in
      let works = ltb r (length s.socket.connection_list) in
      let t = (recy_connection_round stop now s).0.socket in
      (t.recyconnection_list ≡ (if works then select (neg test) q else q))
      × (t.freeconnection_list ≡ (if works then free ++ select test q else free))
unfolding recy_connection_round release_round
round-select workers wait threads stop now {r} {s} h k l n =
    let v = Reach-Counted workers wait threads h in
    let z : (stop == 1) ≡ false = ground (arith, n) in
    let c = still_counts r s.socket v k l in
    elim (Bool-cases (ltb r (length s.socket.connection_list))) [
      | inl e ↦ rw (z, c ∙ e, e) (release_due-select stop now r s)
      | inr e ↦ rw (z, c ∙ e, e) (refl, refl)
    ]
