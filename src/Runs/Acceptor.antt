-- ===== src/Runs/Acceptor.antt =====
-- An acceptor with one session, and the theorems on it.
use rfrp.Base.{◌+◌, ◌≤◌, ◌≡◌, refl}
use rfrp.Acceptor.{
  Acceptor, listen, max_concurrent_clients, on_accept, on_permit, accepted, granted, Reach, here,
  next,
}
use rfrp.Acceptor.Limit.{Reach-permits, waiting_unbounded}

abbrev one_session : Acceptor
one_session = on_permit 63 0 (on_accept listen)

one_session-Reach : Reach one_session
unfolding on_accept
one_session-Reach = next (next here (accepted listen)) (granted (on_accept listen) 63 0 refl refl)

Reach-permits_example :
    (one_session.permits + one_session.running ≡ max_concurrent_clients)
    × (one_session.running ≤ max_concurrent_clients)
Reach-permits_example = Reach-permits one_session-Reach

waiting_unbounded_example :
    (t : Acceptor) × Reach t
    × (t.waiting ≡ one_session.waiting + 100)
    × (t.running ≡ one_session.running)
waiting_unbounded_example = waiting_unbounded 100 one_session-Reach
