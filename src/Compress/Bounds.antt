-- ===== src/Compress/Bounds.antt =====
-- `decompress_into_vec` ends on every input, within its bound, whatever flate2 answers.
use rfrp.Base.{
  ℕ, zero, suc, ◌+◌, ◌-◌, ◌≤◌, ◌<◌, ◌≡◌, refl, ◌∙◌, Bool, true, false, ◌&&◌, List, [], ◌++◌, inl,
  inr, arith, ltb, ◌==◌, if◌then◌else◌, length, take, drop, replicate, length-append, length-take,
  length-drop, length-replicate, Option-cases,
}
use rfrp.Base.Result.{Result, ok, err}
use rfrp.Crypto.{ProtoError, decompression_failed, decompression_bomb, decompression_stalled}
use rfrp.Compress.{
  Flate, Outcome, returns, max_decompressed_size, chunk_size, is_stream_end, decompress_loop,
  decompress_into_vec,
}
use mathlib.Core.Path.{subst}
use rfrp.Base.Outcome.{slice_to-le, slice_from-le}
use rfrp.Compress.Laws.{IsFlate}

-- The call returns; a successful one leaves at most `max_decompressed_size` bytes in the destination,
-- and no call more than a chunk beyond that.
abbrev pub EndsWithin :
    {S : Type 0} → ℕ → Outcome (Result ProtoError (Unit {0}) × List ℕ × S) → Type 0
EndsWithin {S} room o =
    (r : Result ProtoError (Unit {0})) × (dst : List ℕ) × (s : S) × (o ≡ returns (r, dst, s))
    × (r ≡ ok tt → length dst ≤ max_decompressed_size)
    × (length dst ≤ max_decompressed_size + room)

-- The three tests of a round: each end is within the bound, if the rest of the loop is.
round_ends :
    {S : Type 0} (room : ℕ) (bomb done stalled : Bool) (dst : List ℕ) (s : S)
    (rest : Outcome (Result ProtoError (Unit {0}) × List ℕ × S))
    → length dst ≤ max_decompressed_size + room
    → (bomb ≡ false → length dst ≤ max_decompressed_size)
    → (bomb ≡ false → stalled ≡ false → EndsWithin room rest)
    → EndsWithin room (
        if bomb
        then returns (err decompression_bomb, dst, s)
        else if done
        then returns (ok tt, dst, s)
        else if stalled
        then returns (err decompression_stalled, dst, s)
        else rest)
round_ends room true done stalled dst s rest le fits go =
    (err decompression_bomb, dst, s, refl, λ h. cc, le)
round_ends room false true stalled dst s rest le fits go = (ok tt, dst, s, refl, λ h. fits refl, le)
round_ends room false false true dst s rest le fits go =
    (err decompression_stalled, dst, s, refl, λ h. cc, le)
round_ends room false false false dst s rest le fits go = go refl refl

pub grown :
    (dst chunk : List ℕ) (n : ℕ) → n ≤ length chunk → length (dst ++ take n chunk) ≡ length dst + n
grown dst chunk n h = length-append dst (take n chunk) ∙ omega (arith, length-take n chunk)

module _ (f : Flate) (laws : IsFlate f) where
  decompress_loop-ends :
      (fuel : ℕ) (s : f.State) (input chunk dst : List ℕ)
      → length dst ≤ max_decompressed_size
      → length input + (max_decompressed_size - length dst) < fuel
      → EndsWithin (length chunk) (decompress_loop f fuel s input chunk dst)
  unfolding decompress_loop
  decompress_loop-ends zero s input chunk dst fits enough = absurd (omega arith)
  decompress_loop-ends (suc fuel) s input chunk dst fits enough =
      elim (Option-cases (f.run s input chunk)) [
        | inl e ↦
            rw (e, decompress_loop) (err decompression_failed, dst, s, refl, λ h. cc, omega arith)
        | inr ((s', status, chunk'), e) ↦
            let (same, w_le) = laws.writes s input chunk s' status chunk' e in
            let c_le = laws.reads s input chunk s' status chunk' e in
            let size = grown dst chunk' (f.total_out s' - f.total_out s) in
            let left = length-drop (f.total_in s' - f.total_in s) input in
            rw
              (
                e,
                decompress_loop,
                slice_to-le chunk' (f.total_out s' - f.total_out s) (omega arith),
                slice_from-le input (f.total_in s' - f.total_in s) c_le,
              )
              (round_ends (length chunk)
                (ltb max_decompressed_size
                  (length (dst ++ take (f.total_out s' - f.total_out s) chunk')))
                (is_stream_end status)
                ((f.total_in s' - f.total_in s == 0) && (f.total_out s' - f.total_out s == 0))
                (dst ++ take (f.total_out s' - f.total_out s) chunk') s'
                (decompress_loop f fuel s' (drop (f.total_in s' - f.total_in s) input) chunk'
                  (dst ++ take (f.total_out s' - f.total_out s) chunk'))
                (omega (arith, size)) (λ small. ground arith)
                (λ small moved. rw (← same) (
                  decompress_loop-ends fuel s' (drop (f.total_in s' - f.total_in s) input) chunk'
                    (dst ++ take (f.total_out s' - f.total_out s) chunk') (ground arith)
                    (ground arith))))
      ]

  -- Decompression ends on every input, of any length and any content: the loop never runs on without
  -- end, and the slices that it takes of the chunk and of the input are never out of range, which would
  -- panic. A success leaves at most 64 MiB, and an error at most one chunk more.
  pub decompress_into_vec-ends :
      (bytes dst : List ℕ) (s : f.State) → EndsWithin chunk_size (decompress_into_vec f bytes dst s)
  unfolding decompress_into_vec
  decompress_into_vec-ends bytes dst s =
      subst
        (λ n. EndsWithin n (
          decompress_loop f (length bytes + max_decompressed_size + 1) (f.reset s) bytes
            (replicate chunk_size 0) []))
        (length-replicate {A = ℕ} chunk_size 0)
        (decompress_loop-ends (length bytes + max_decompressed_size + 1) (f.reset s) bytes
          (replicate chunk_size 0) [] (omega arith) (omega arith))
