-- ===== src/Proxy/Progress.antt =====
-- What a listener can do next, and how it answers the registration.
use rfrp.Base.{
  ℕ, zero, suc, ◌+◌, ◌^◌, ◌≤◌, ◌<◌, ◌≡◌, refl, Bool, true, ◌&&◌, List, [], ◌∷◌, none, some, arith,
  leb, if◌then◌else◌, length,
}
use rfrp.Config.{ClientInfo}
use rfrp.Frame.{new_reg_ack_frame}
use rfrp.Proxy.{
  Listener, listen, on_permit, on_reader_end, runs, granted, closed, Reach, here, next,
  handle_reg_frame,
}
use rfrp.Proxy.Live.{Reach-IsLive}

-- Within two steps the read task of a connection runs.
abbrev pub IsServedSoon : ℕ → Listener → Type 0
IsServedSoon c l = (k : ℕ) × (m : Listener) × (k ≤ 2) × Reach l k m × (runs c m.readers ≡ true)

runs-on_permit : (c n : ℕ) (l : Listener) → runs c (on_permit c n l).readers ≡ true
unfolding runs on_permit
runs-on_permit c n l = ground arith

granted-IsServedSoon :
    (c n : ℕ) (l : Listener) → l.waiting ≡ some c → l.permits ≡ n + 1 → IsServedSoon c l
granted-IsServedSoon c n l w e =
    (1, on_permit c n l, omega arith, next here (granted l c n w e), runs-on_permit c n l)

freed-IsServedSoon :
    (c d : ℕ) (l : Listener) → l.waiting ≡ some c → runs d l.readers ≡ true → IsServedSoon c l
unfolding on_reader_end
freed-IsServedSoon c d l w h =
    let freed = on_reader_end d l in
    (
      2,
      on_permit c l.permits freed,
      omega arith,
      next (next here (closed l d h)) (granted freed c l.permits w refl),
      runs-on_permit c l.permits freed,
    )

first_runs : (cs : List ℕ) → 1 ≤ length cs → (d : ℕ) × (runs d cs ≡ true)
unfolding runs
first_runs [] h = absurd (omega arith)
first_runs (c ∷ cs) h = (c, ground arith)

-- A connection that waits for a permit is never stuck, in fewer than 2^64 steps from the start: there
-- is a permit for it, or some read task runs whose end gives it one.
pub waiting-IsServedSoon :
    (p n c : ℕ) (l : Listener)
    → n < 2 ^ 64
    → Reach (listen p) n l
    → l.waiting ≡ some c
    → IsServedSoon c l
waiting-IsServedSoon p n c l small r w = by_permits l.permits refl
  where
    by_permits : (k : ℕ) → l.permits ≡ k → IsServedSoon c l
    by_permits zero e =
        let v = Reach-IsLive p n small r in
        let (d, h) = first_runs l.readers (omega (arith, v.permitted)) in
        freed-IsServedSoon c d l w h
    by_permits (suc k) e = granted-IsServedSoon c k l w (omega arith)

-- A registration is answered once, while the channel is open: with a success and the proxy's id when the
-- listener starts, and else with a failure and the id 0. It starts when the port is not privileged and
-- can be bound.
pub handle_reg_frame-answers :
    (binds : ℕ → Bool) (client_info : ClientInfo) (proxy_id : ℕ)
    → let started : Bool = leb 1024 client_info.bind_port && binds client_info.bind_port in
      handle_reg_frame binds true client_info proxy_id ≡ (
        new_reg_ack_frame client_info started (if started then proxy_id else 0) ∷ [],
        if started then some (listen proxy_id) else none,
      )
unfolding handle_reg_frame
handle_reg_frame-answers binds client_info proxy_id = ground arith
