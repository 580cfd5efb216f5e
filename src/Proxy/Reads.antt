-- ===== src/Proxy/Reads.antt =====
-- What a step of a listener reads, and what no step changes.
use rfrp.Base.{ℕ, ◌≡◌, refl, true, false, List, [], ◌∷◌, ◌==◌, if◌then◌else◌}
use rfrp.Proxy.{
  Listener, on_accept, on_permit, on_read, on_reader_end, Step, accepted, granted, read, closed,
}

-- What a step reads from a connection, if its frame is taken.
abbrev pub chunk_of : ℕ → {l m : Listener} → Step l m → List (List ℕ)
chunk_of c (accepted l e) = []
chunk_of c (granted l d n w e) = []
chunk_of c (read l true d bytes h) = if d == c then bytes ∷ [] else []
chunk_of c (read l false d bytes h) = []
chunk_of c (closed l d h) = []

pub Step-proxy_id : {l m : Listener} → Step l m → m.proxy_id ≡ l.proxy_id
unfolding on_accept on_permit on_read on_reader_end
Step-proxy_id (accepted l e) = refl
Step-proxy_id (granted l d n w e) = refl
Step-proxy_id (read l true d bytes h) = refl
Step-proxy_id (read l false d bytes h) = refl
Step-proxy_id (closed l d h) = refl
