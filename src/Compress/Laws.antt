-- ===== src/Compress/Laws.antt =====
-- What the loops rely on of flate2, as its documentation states it.
use rfrp.Base.{ℕ, ◌+◌, ◌-◌, ◌*◌, ◌≤◌, ◌<◌, ◌≡◌, ◌≢◌, List, ◌++◌, some, length, take, drop}
use rfrp.Compress.{Flate, Status, stream_end, chunk_size}

-- One call reads at most the input, writes at most the chunk, and counts both in its totals.
pub record IsFlate (f : Flate) : Type 0 where
  pub reads :
      (s : f.State) (input chunk : List ℕ) (s' : f.State) (status : Status) (chunk' : List ℕ)
      → f.run s input chunk ≡ some (s', status, chunk')
      → f.total_in s' - f.total_in s ≤ length input
  pub writes :
      (s : f.State) (input chunk : List ℕ) (s' : f.State) (status : Status) (chunk' : List ℕ)
      → f.run s input chunk ≡ some (s', status, chunk')
      → (length chunk' ≡ length chunk) × (f.total_out s' - f.total_out s ≤ length chunk)

-- A stream's calls up to the end of the stream: each call but the last reads or writes something;
-- `out` is what they write together.
pub data Run (f : Flate) : f.State → List ℕ → List ℕ → List ℕ → f.State → Type 0 where
  last :
      {s : f.State} {input chunk chunk' out : List ℕ} {s' : f.State}
      → f.run s input chunk ≡ some (s', stream_end, chunk')
      → out ≡ take (f.total_out s' - f.total_out s) chunk'
      → Run f s input chunk out s'
  more :
      {s : f.State} {input chunk chunk' input' out rest : List ℕ} {s' t : f.State} {status : Status}
      → f.run s input chunk ≡ some (s', status, chunk')
      → status ≢ stream_end
      → 0 < (f.total_in s' - f.total_in s) + (f.total_out s' - f.total_out s)
      → input' ≡ drop (f.total_in s' - f.total_in s) input
      → Run f s' input' chunk' rest t
      → out ≡ take (f.total_out s' - f.total_out s) chunk' ++ rest
      → Run f s input chunk out t

-- DEFLATE is lossless: a fresh compressor comes to the end of its stream on any bytes, and a fresh
-- decompressor comes to the end of that stream with those bytes. The stream is never larger than
-- `deflateBound`, which is well below what is stated here.
pub record IsLossless (deflate inflate : Flate) : Type 0 where
  pub deflates :
      (s : deflate.State) (bytes chunk : List ℕ)
      → length chunk ≡ chunk_size
      → (out : List ℕ) × (t : deflate.State) × Run deflate (deflate.reset s) bytes chunk out t
  pub bounded :
      (s t : deflate.State) (bytes chunk out : List ℕ)
      → Run deflate (deflate.reset s) bytes chunk out t
      → length out ≤ 2 * length bytes + 64
  pub inflates :
      (s t : deflate.State) (bytes chunk out : List ℕ)
      → Run deflate (deflate.reset s) bytes chunk out t
      → (u : inflate.State) (fresh : List ℕ) → length fresh ≡ chunk_size
      → (v : inflate.State) × Run inflate (inflate.reset u) out fresh bytes v
