-- ===== src/Acceptor.antt =====
-- rfrp_server/src/lib.rs: the accept loop of the server and the sessions that it has spawned.
pub mod Limit
use rfrp.Base.{ℕ, ◌+◌, ◌≡◌}

abbrev pub max_concurrent_clients : ℕ
max_concurrent_clients = 64

-- The tasks are alike but for their sockets, so they are counted.
pub record Acceptor : Type 0 where
  pub permits : ℕ
  pub waiting : ℕ  -- tasks that await a permit, each with a socket
  pub running : ℕ  -- tasks in `run_proxy`, each with a permit

abbrev pub listen : Acceptor
listen = record { permits = max_concurrent_clients; waiting = 0; running = 0 }

unfoldable pub on_accept : Acceptor → Acceptor
on_accept s = record s { waiting = s.waiting + 1 }

-- One of the waiting tasks gets a permit: the arguments are what is left of both.
unfoldable pub on_permit : ℕ → ℕ → Acceptor → Acceptor
on_permit permits waiting s = record s {
  permits = permits;
  waiting = waiting;
  running = s.running + 1;
}

-- A session ends, and its permit is dropped: the argument is how many go on.
unfoldable pub on_session_end : ℕ → Acceptor → Acceptor
on_session_end running s = record s { permits = s.permits + 1; running = running }

-- One step, in any interleaving. A failed `accept` changes nothing.
pub data Step : Acceptor → Acceptor → Type 0 where
  accepted : (s : Acceptor) → Step s (on_accept s)
  granted :
      (s : Acceptor) (p w : ℕ) → s.permits ≡ p + 1 → s.waiting ≡ w + 1 → Step s (on_permit p w s)
  finished : (s : Acceptor) (n : ℕ) → s.running ≡ n + 1 → Step s (on_session_end n s)

pub data Reach : Acceptor → Type 0 where
  here : Reach listen
  next : {s t : Acceptor} → Reach s → Step s t → Reach t
