-- ===== src/Acceptor/Limit.antt =====
-- What the limit on clients bounds, and what it does not.
use rfrp.Base.{ℕ, zero, suc, ◌+◌, ◌≤◌, ◌≡◌, refl, arith}
use rfrp.Acceptor.{
  Acceptor, max_concurrent_clients, on_accept, on_permit, on_session_end, Step, accepted, granted,
  finished, Reach, here, next,
}

Step-permits :
    {s t : Acceptor}
    → Step s t
    → s.permits + s.running ≡ max_concurrent_clients
    → t.permits + t.running ≡ max_concurrent_clients
unfolding on_accept on_permit on_session_end
Step-permits (accepted s) h = h
Step-permits (granted s p w e k) h = omega arith
Step-permits (finished s n e) h = omega arith

-- However connections come and sessions end, the permits and the running sessions together are 64, so
-- that at most 64 sessions run at once.
pub Reach-permits :
    {s : Acceptor}
    → Reach s
    → (s.permits + s.running ≡ max_concurrent_clients) × (s.running ≤ max_concurrent_clients)
Reach-permits here = (refl, omega arith)
Reach-permits (next r st) = let h = Step-permits st ((Reach-permits r).0) in (h, omega arith)

-- The loop goes on to accept while no permit is left: any number of accepted connections can come to
-- wait, from any state, with no session ended.
pub waiting_unbounded :
    (n : ℕ) {s : Acceptor}
    → Reach s
    → (t : Acceptor) × Reach t × (t.waiting ≡ s.waiting + n) × (t.running ≡ s.running)
unfolding on_accept
waiting_unbounded zero {s} r = (s, r, omega arith, refl)
waiting_unbounded (suc n) {s} r =
    let (t, r', e, k) = waiting_unbounded n r in (on_accept t, next r' (accepted t), omega arith, k)
