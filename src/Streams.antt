-- ===== src/Streams.antt =====
-- The byte streams of connections through the whole tunnel: rfrp_server/src/run_proxy.rs and
-- rfrp_client/src/run_proxy.rs together, over the wire of rfrp_proto.

pub mod Inbound
pub mod Client
pub mod Outbound
pub mod Server
pub mod EndToEnd
pub mod Sockets
use rfrp.Base.{ℕ, ◌≡◌, refl, true, List, [], ◌∷◌, ◌++◌, arith, ◌==◌, if◌then◌else◌}

-- What a sender took, of all that was sent.
abbrev pub stream : ℕ → List (ℕ × List ℕ) → List (List ℕ)
stream s [] = []
stream s ((k, bytes) ∷ rest) = if k == s then bytes ∷ stream s rest else stream s rest

pub stream-snoc :
    (s k : ℕ) (bytes : List ℕ) (sent : List (ℕ × List ℕ))
    → stream s (sent ++ ((k, bytes) ∷ [])) ≡ stream s sent ++ (if k == s then bytes ∷ [] else [])
stream-snoc s k bytes [] = ground arith
stream-snoc s k bytes ((j, b) ∷ sent) = ground (arith, stream-snoc s k bytes sent)
