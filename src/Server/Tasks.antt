-- ===== src/Server/Tasks.antt =====
-- What the tasks of the proxies do to their tables, against the specification.
use rfrp.Base.{
  ℕ, zero, suc, ◌≤◌, ◌≡◌, inl, inr, ◌&&◌, List, [], ◌∷◌, Option, none, some, arith, lt→ltb, le→ltb,
  ◌==◌, if◌then◌else◌, length, get_elem?, get_elem?-lt, Option-cases,
}
use rfrp.Base.Dict.{write_at}
use rfrp.Server.{Session, ConnSender, ProxyTask, find_sender, on_task}
use rfrp.Server.Invariant.{IsCoherent}
use rfrp.Server.Service.{Service, Provides, route, reroute}

get_elem?-none : {A : Type 0} (xs : List A) (i : ℕ) → get_elem? xs i ≡ none → length xs ≤ i
get_elem?-none [] i h = omega arith
get_elem?-none (x ∷ xs) zero h = cc
get_elem?-none (x ∷ xs) (suc i) h = omega (arith, get_elem?-none xs i h)

task_routes :
    {s : Session} {a : Service}
    → IsCoherent s
    → Provides s a
    → (i conn_id : ℕ) (entry : Option ConnSender) {t : ProxyTask}
    → get_elem? s.proxy_tasks i ≡ some t
    → (id j : ℕ)
    → find_sender
        (s.proxy_routing id)
        j
        (write_at t.routing (λ k. if k == conn_id then entry else s.tables t.routing k) s.tables)
      ≡ (if (id == i) && (j == conn_id) then entry else a.route id j)
unfolding find_sender route
task_routes {s} {a} v p i conn_id entry {t} e id j = elim (Option-cases (s.proxy_routing id)) [
  | inl n ↦
      ground (
        arith,
        p.routes id j,
        v.tasks i t e,
        v.counted,
        get_elem?-lt s.proxy_tasks i e,
        v.assigned i,
      )
  | inr (x, n) ↦ ground (arith, p.routes id j, v.tasks i t e, v.routed id x n)
]

-- What the tasks of a proxy write, through the table that they share with the session, is what the
-- service's routes show, and no other proxy's routes change.
pub on_task-Provides :
    (i conn_id : ℕ) (entry : Option ConnSender) (s : Session) (a : Service)
    → IsCoherent s
    → Provides s a
    → Provides (on_task i conn_id entry s) (reroute i conn_id entry a)
unfolding on_task reroute
on_task-Provides i conn_id entry s a v p = elim (Option-cases (get_elem? s.proxy_tasks i)) [
  | inl e ↦
      rw
        (
          e,
          on_task,
          le→ltb i a.proxies (omega (arith, get_elem?-none s.proxy_tasks i e, p.proxies)),
        )
        p
  | inr (t, e) ↦
      rw (e, on_task, lt→ltb i a.proxies (omega (arith, get_elem?-lt s.proxy_tasks i e, p.proxies)))
        (record {
          proxies = p.proxies;
          routes = λ id j. unfold route in task_routes v p i conn_id entry e id j;
          replies = p.replies;
          handed = p.handed;
        })
]
