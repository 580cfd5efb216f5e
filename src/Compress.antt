-- ===== src/Compress.antt =====
-- rfrp_proto/src/compress.rs: the two loops around flate2. A `flate2::Compress` or `Decompress`
-- object is a state of a `Flate` value, whose calls are not the repository's.
pub mod Laws
pub mod Bounds
pub mod Stream
use rfrp.Base.{
  ℕ, zero, suc, ◌+◌, ◌-◌, ◌*◌, Bool, true, false, ◌&&◌, List, [], ◌∷◌, ◌++◌, Option, none, some,
  ltb, ◌==◌, if◌then◌else◌, length, take, drop, replicate,
}
use rfrp.Base.Result.{Result, ok, err}
use rfrp.Base.Outcome.{◌>>=◌, slice_to, slice_from}
pub use rfrp.Base.Outcome.{Outcome, returns, panics, out_of_fuel}
use rfrp.Crypto.{ProtoError, decompression_failed, decompression_bomb, decompression_stalled}

pub data Status : Type 0 where
  stream_end ok_status buf_error : Status

-- `run` is one call of `compress` or `decompress` with the flag Finish: the object, the input and the
-- output chunk before, then the object, the status and the chunk afterwards, or `none` for an error.
pub record Flate : Type 1 where
  pub State : Type 0
  pub reset : State → State
  pub total_in : State → ℕ  -- u64
  pub total_out : State → ℕ  -- u64
  pub run : State → List ℕ → List ℕ → Option (State × Status × List ℕ)

abbrev pub max_decompressed_size : ℕ
max_decompressed_size = 64 * 1024 * 1024

abbrev pub chunk_size : ℕ
chunk_size = 8192

unfoldable pub is_stream_end : Status → Bool
is_stream_end stream_end = true
is_stream_end ok_status = false
is_stream_end buf_error = false

module _ (f : Flate) where
  -- The loop of `compress_into_bytes_mut`: the destination and the object afterwards.
  unfoldable pub compress_loop :
      ℕ → f.State → (input chunk dst : List ℕ) → Outcome (List ℕ × f.State)
  unfolding is_stream_end
  compress_loop zero s input chunk dst = out_of_fuel
  compress_loop (suc fuel) s input chunk dst = elim (f.run s input chunk) [
    | none ↦ panics
    | some (s', status, chunk') ↦ do
      let in_consumed = f.total_in s' - f.total_in s
      let out_written = f.total_out s' - f.total_out s
      written ← slice_to chunk' out_written
      let dst' = dst ++ written
      input' ← slice_from input in_consumed
      let rest = compress_loop fuel s' input' chunk' dst'
      if is_stream_end status
          then returns (dst', s')
          else if (in_consumed == 0) && (out_written == 0)
          then panics
          else rest
  ]

  -- Each round but the last reads or writes something, and zlib's `deflateBound` bounds what is
  -- written.
  unfoldable pub compress_into_bytes_mut : List ℕ → List ℕ → f.State → Outcome (List ℕ × f.State)
  compress_into_bytes_mut bytes dst compress =
      compress_loop (3 * length bytes + 65) (f.reset compress) bytes (replicate chunk_size 0) []

  -- The loop of `decompress_into_vec`: the result, the destination and the object afterwards.
  unfoldable pub decompress_loop :
      ℕ
      → f.State
      → (input chunk dst : List ℕ) → Outcome (Result ProtoError (Unit {0}) × List ℕ × f.State)
  unfolding is_stream_end
  decompress_loop zero s input chunk dst = out_of_fuel
  decompress_loop (suc fuel) s input chunk dst = elim (f.run s input chunk) [
    | none ↦ returns (err decompression_failed, dst, s)
    | some (s', status, chunk') ↦ do
      let in_consumed = f.total_in s' - f.total_in s
      let out_written = f.total_out s' - f.total_out s
      written ← slice_to chunk' out_written
      let dst' = dst ++ written
      if ltb max_decompressed_size (length dst')
          then returns (err decompression_bomb, dst', s')
          else (do
            input' ← slice_from input in_consumed
            let rest = decompress_loop fuel s' input' chunk' dst'
            if is_stream_end status
                then returns (ok tt, dst', s')
                else if (in_consumed == 0) && (out_written == 0)
                then returns (err decompression_stalled, dst', s')
                else rest)
  ]

  -- A round that goes on takes input or adds to the destination, which has a bound.
  unfoldable pub decompress_into_vec :
      List ℕ → List ℕ → f.State → Outcome (Result ProtoError (Unit {0}) × List ℕ × f.State)
  decompress_into_vec bytes dst decompress =
      decompress_loop (length bytes + max_decompressed_size + 1) (f.reset decompress) bytes
        (replicate chunk_size 0) []
