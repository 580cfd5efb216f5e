-- ===== src/Server/Ends.antt =====
-- The main loop as a whole: it answers every sequence of events, and what it leaves.
use rfrp.Base.{
  ℕ, ◌≤◌, ◌<◌, ◌≡◌, refl, List, [], ◌∷◌, none, some, arith, length, get_elem?, get_elem?-some,
}
use rfrp.Base.Result.{Result, ok, err}
use rfrp.Frame.{RfrpFrame}
use rfrp.Crypto.{ProtoError, Cipher}
use rfrp.Compress.{Outcome, returns}
use rfrp.Codec.{Crates}
use rfrp.Codec.Laws.{AreCrates}
use rfrp.Codec.RoundTrip.{decode-ends}
use rfrp.Server.{
  Session, ProxyTask, Next, goes_on, breaks, on_frame, on_task, shut_down, max_proxies_per_client,
}
use rfrp.Server.Invariant.{IsCoherent, session_of, on_frame-IsCoherent, on_task-IsCoherent}
use rfrp.Server.Loop.{
  Event, payload, read_error, closed, keepalive_timeout, task_write, Progress, waiting, ended,
  finish, main_loop,
}

-- A session that has ended holds no task and no route, and has aborted the task of every proxy id that
-- it gave out, at most 16, and no others.
pub record IsShutDown (s : Session) : Type 0 where
  pub no_tasks : s.proxy_tasks ≡ []
  pub no_routes : (id : ℕ) → s.proxy_routing id ≡ none
  pub few_aborted : length s.aborted ≤ max_proxies_per_client
  pub counted_aborted : length s.aborted ≡ s.next_proxy_id
  pub all_aborted :
      (id : ℕ)
      → id < s.next_proxy_id
      → (t : ProxyTask) × (get_elem? s.aborted id ≡ some t) × (t.proxy_id ≡ id)

abbrev pub IsSound : Progress → Type 0
IsSound (waiting s) = IsCoherent s
IsSound (ended s) = IsShutDown s

finish-IsSound : {s : Session} → IsCoherent s → IsSound (finish s)
unfolding finish shut_down
finish-IsSound {s} v = record {
  no_tasks = refl;
  no_routes = λ id. refl;
  few_aborted = rw (v.counted) v.limited;
  counted_aborted = v.counted;
  all_aborted = λ id h.
      let (t, at) = get_elem?-some s.proxy_tasks id (omega (arith, v.counted)) in
      (t, at, (v.tasks id t at).0);
}

-- The loop answers, and soundly.
abbrev pub Answers : Outcome Progress → Type 0
Answers o = (p : Progress) × (o ≡ returns p) × IsSound p

finish-Answers : {s : Session} → IsCoherent s → Answers (returns (finish s))
finish-Answers {s} v = (finish s, refl, finish-IsSound v)

module _ (crates : Crates) (laws : AreCrates crates) (cipher : Cipher) where
  -- From a coherent session the main loop answers every sequence of events, whatever bytes the client
  -- sends: it comes to wait in a coherent session, or it ends with the task of every proxy aborted,
  -- at most 16, and no route left. It neither panics nor runs on.
  pub main_loop-Answers :
      (es : List Event) (decomp_buf : List ℕ) (decompress : crates.inflate.State) (s : Session)
      → IsCoherent s
      → Answers (main_loop crates cipher es decomp_buf decompress s)
  unfolding main_loop
  main_loop-Answers [] decomp_buf decompress s v = (waiting s, refl, v)
  main_loop-Answers (read_error ∷ es) decomp_buf decompress s v = finish-Answers v
  main_loop-Answers (closed ∷ es) decomp_buf decompress s v = finish-Answers v
  main_loop-Answers (keepalive_timeout ∷ es) decomp_buf decompress s v = finish-Answers v
  main_loop-Answers (task_write i conn_id entry ∷ es) decomp_buf decompress s v =
      main_loop-Answers es decomp_buf decompress (on_task i conn_id entry s)
        (on_task-IsCoherent i conn_id entry s v)
  main_loop-Answers (payload r bytes ∷ es) decomp_buf decompress s v =
      let (res, buf, decomp_buf', decompress', e) =
        decode-ends crates laws bytes cipher decomp_buf decompress in
      rw (e, main_loop)
        (by_result res decomp_buf' decompress' (main_loop-Answers es decomp_buf' decompress'))
    where
      by_next :
          (n : Next) (decomp_buf' : List ℕ) (decompress' : crates.inflate.State)
          → IsCoherent (session_of n)
          → ((s' : Session)
              → IsCoherent s'
              → Answers (main_loop crates cipher es decomp_buf' decompress' s'))
          → Answers (elim n [
            | breaks s' ↦ returns (finish s')
            | goes_on s' ↦ main_loop crates cipher es decomp_buf' decompress' s'
          ])
      by_next (breaks s') decomp_buf' decompress' v' rest = finish-Answers v'
      by_next (goes_on s') decomp_buf' decompress' v' rest = rest s' v'

      by_result :
          (res : Result ProtoError RfrpFrame) (decomp_buf' : List ℕ)
          (decompress' : crates.inflate.State)
          → ((s' : Session)
              → IsCoherent s'
              → Answers (main_loop crates cipher es decomp_buf' decompress' s'))
          → Answers (elim res [
            | err e ↦ returns (finish s)
            | ok f ↦ elim (on_frame r f s) [
              | breaks s' ↦ returns (finish s')
              | goes_on s' ↦ main_loop crates cipher es decomp_buf' decompress' s'
            ]
          ])
      by_result (err e) decomp_buf' decompress' rest = finish-Answers v
      by_result (ok f) decomp_buf' decompress' rest =
          by_next (on_frame r f s) decomp_buf' decompress' (on_frame-IsCoherent r f s v) rest
