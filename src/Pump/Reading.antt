-- ===== src/Pump/Reading.antt =====
-- What a read task sends, seen as the byte stream of its connection.
use rfrp.Base.{ℕ, ◌≡◌, true, false, ◌&&◌, List, [], ◌∷◌, ◌++◌, arith, ◌==◌, if◌then◌else◌}
use rfrp.Frame.{RfrpFrame, register, register_ack, control, data_frame, new_data_frame}
use rfrp.Pump.{Read, eof, read_error, chunk, read_task}

-- The payload that a frame holds for a connection of a proxy.
abbrev pub payload_of : ℕ → ℕ → RfrpFrame → List (List ℕ)
payload_of p c (data_frame d) = if (d.proxy_id == p) && (d.conn_id == c) then d.payload ∷ [] else []
payload_of p c (register i) = []
payload_of p c (register_ack r) = []
payload_of p c (control i) = []

-- Those of some frames, in their order.
abbrev pub payloads : ℕ → ℕ → List RfrpFrame → List (List ℕ)
payloads p c [] = []
payloads p c (f ∷ fs) = payload_of p c f ++ payloads p c fs

-- The chunks that were read before the first read or send that failed.
abbrev pub chunks : List Read → List (List ℕ)
chunks [] = []
chunks (eof ∷ reads) = []
chunks (read_error ∷ reads) = []
chunks (chunk bytes true ∷ reads) = bytes ∷ chunks reads
chunks (chunk bytes false ∷ reads) = []

-- A read task sends what it reads to its own connection, in order and all of it up to its end, and
-- nothing to any other connection.
pub payloads-read_task :
    (p c q j : ℕ) (reads : List Read)
    → payloads q j (read_task p c reads).0 ≡ (if (p == q) && (c == j) then chunks reads else [])
unfolding read_task new_data_frame
payloads-read_task p c q j [] = ground arith
payloads-read_task p c q j (eof ∷ reads) = ground arith
payloads-read_task p c q j (read_error ∷ reads) = ground arith
payloads-read_task p c q j (chunk bytes true ∷ reads) =
    ground (arith, payloads-read_task p c q j reads)
payloads-read_task p c q j (chunk bytes false ∷ reads) = ground arith
