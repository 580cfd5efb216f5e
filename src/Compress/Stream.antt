-- ===== src/Compress/Stream.antt =====
-- The two loops follow a stream to its end, so that together they give back what went in.
use rfrp.Base.{
  ℕ, zero, suc, ◌+◌, ◌-◌, ◌*◌, ◌≤◌, ◌<◌, ◌≡◌, ◌≢◌, refl, ap, ◌∙◌, false, ◌&&◌, List, [], ◌++◌, some,
  arith, ◌==◌, le→ltb, length, take, drop, replicate, length-append, length-take, length-drop,
  length-replicate,
}
use rfrp.Base.Result.{ok}
use rfrp.Base.Outcome.{slice_to-le, slice_from-le}
use rfrp.Compress.{
  Flate, Status, stream_end, ok_status, buf_error, returns, max_decompressed_size, chunk_size,
  is_stream_end, compress_loop, compress_into_bytes_mut, decompress_loop, decompress_into_vec,
}
use rfrp.Compress.Laws.{IsFlate, Run, last, more, IsLossless}
use mathlib.Core.List.{append_assoc}

not_end : (status : Status) → status ≢ stream_end → is_stream_end status ≡ false
unfolding is_stream_end
not_end stream_end h = absurd (h refl)
not_end ok_status h = refl
not_end buf_error h = refl

moved : (c w : ℕ) → 0 < c + w → ((c == 0) && (w == 0)) ≡ false
moved c w h = ground arith

module _ (f : Flate) (laws : IsFlate f) {s s' : f.State} {input chunk chunk' : List ℕ} {st : Status}
    (e : f.run s input chunk ≡ some (s', st, chunk')) where
  -- What a call reads and writes.
  abbrev consumed : ℕ
  consumed = f.total_in s' - f.total_in s

  abbrev written : ℕ
  written = f.total_out s' - f.total_out s

  within : (consumed ≤ length input) × (written ≤ length chunk')
  within =
      let (same, small) = laws.writes s input chunk s' st chunk' e in
      (laws.reads s input chunk s' st chunk' e, omega arith)

  module _ (fuel : ℕ) (dst : List ℕ) where
    compress_loop-more :
        st ≢ stream_end
        → 0 < consumed + written
        → compress_loop f (suc fuel) s input chunk dst
          ≡ compress_loop f fuel s' (drop consumed input) chunk' (dst ++ take written chunk')
    unfolding compress_loop
    compress_loop-more going go = rw (
      e,
      compress_loop,
      slice_to-le chunk' written within.1,
      slice_from-le input consumed within.0,
      not_end st going,
      moved consumed written go,
    )

    decompress_loop-more :
        st ≢ stream_end
        → 0 < consumed + written
        → length (dst ++ take written chunk') ≤ max_decompressed_size
        → decompress_loop f (suc fuel) s input chunk dst
          ≡ decompress_loop f fuel s' (drop consumed input) chunk' (dst ++ take written chunk')
    unfolding decompress_loop
    decompress_loop-more going go fits = rw (
      e,
      decompress_loop,
      slice_to-le chunk' written within.1,
      le→ltb max_decompressed_size _ fits,
      slice_from-le input consumed within.0,
      not_end st going,
      moved consumed written go,
    )

module _ (f : Flate) (laws : IsFlate f) where
  -- How a call that goes on splits the sizes.
  more_sizes :
      {s s' : f.State} {input chunk chunk' : List ℕ} {st : Status} (input' out rest : List ℕ)
      (e : f.run s input chunk ≡ some (s', st, chunk'))
      → input' ≡ drop (consumed f laws e) input
      → out ≡ take (written f laws e) chunk' ++ rest
      → 0 < consumed f laws e + written f laws e
      → length input' + length rest < length input + length out
  more_sizes {s} {s'} {input} {chunk} {chunk'} {st} input' out rest e ei eo go = omega (
    arith,
    ap length ei,
    ap length eo,
    length-append (take (written f laws e) chunk') rest,
    length-take (written f laws e) chunk',
    length-drop (consumed f laws e) input,
    laws.reads s input chunk s' st chunk' e,
    laws.writes s input chunk s' st chunk' e,
  )

  compress_loop-Run :
      (fuel : ℕ) {s t : f.State} {input chunk out : List ℕ}
      → Run f s input chunk out t
      → (dst : List ℕ) → length input + length out < fuel
      → compress_loop f fuel s input chunk dst ≡ returns (dst ++ out, t)
  compress_loop-Run zero r dst h = absurd (omega arith)
  compress_loop-Run (suc fuel) (last e eo) dst h =
      let (reads, writes) = within f laws e in
      unfold compress_loop in
      rw (e, compress_loop, slice_to-le _ _ writes, slice_from-le _ _ reads, eo)
  compress_loop-Run (suc fuel) {out = out}
        (more {chunk' = chunk'} {input' = input'} {rest = rest} e going go ei r eo) dst h =
      rw (
        compress_loop-more f laws e fuel dst going go,
        ← ei,
        compress_loop-Run fuel r (dst ++ take (written f laws e) chunk')
            (omega (arith, more_sizes input' out rest e ei eo go)),
        eo,
        append_assoc,
      )

  decompress_loop-Run :
      (fuel : ℕ) {s t : f.State} {input chunk out : List ℕ}
      → Run f s input chunk out t
      → (dst : List ℕ) → length input + length out < fuel
      → length dst + length out ≤ max_decompressed_size
      → decompress_loop f fuel s input chunk dst ≡ returns (ok tt, dst ++ out, t)
  decompress_loop-Run zero r dst h fits = absurd (omega arith)
  decompress_loop-Run (suc fuel) {out = out} (last e eo) dst h fits =
      let (reads, writes) = within f laws e in
      unfold decompress_loop in
      rw (
        e,
        decompress_loop,
        slice_to-le _ _ writes,
        slice_from-le _ _ reads,
        ← eo,
        le→ltb max_decompressed_size (length (dst ++ out)) (omega (arith, length-append dst out)),
      )
  decompress_loop-Run (suc fuel) {out = out}
        (more {chunk' = chunk'} {input' = input'} {rest = rest} e going go ei r eo) dst h fits =
      let front = take (written f laws e) chunk' in
      let size = ap length eo ∙ length-append front rest in
      rw (
        decompress_loop-more f laws e fuel dst going go
            (omega (arith, length-append dst front, size)),
        ← ei,
        decompress_loop-Run fuel r (dst ++ front)
            (omega (arith, more_sizes input' out rest e ei eo go))
            (omega (arith, length-append dst front, size)),
        eo,
        append_assoc,
      )

-- Compression of any bytes returns, with at most twice as many bytes and 64 more, and decompression
-- turns these back into the bytes, if they are at most 64 MiB. Neither object need be fresh, and
-- neither buffer empty.
pub decompress-compress :
    (deflate inflate : Flate)
    → IsFlate deflate
    → IsFlate inflate
    → IsLossless deflate inflate
    → (bytes dst dst' : List ℕ) (s : deflate.State) (u : inflate.State)
    → length bytes ≤ max_decompressed_size
    → (out : List ℕ) × (t : deflate.State) × (v : inflate.State) × (compress_into_bytes_mut deflate
          bytes dst s
        ≡ returns (out, t))
      × (length out ≤ 2 * length bytes + 64)
      × (decompress_into_vec inflate out dst' u ≡ returns (ok tt, bytes, v))
unfolding compress_into_bytes_mut decompress_into_vec
decompress-compress deflate inflate dl il pair bytes dst dst' s u fits =
    let chunk : List ℕ = replicate chunk_size 0 in
    let size = length-replicate {A = ℕ} chunk_size 0 in
    let (out, t, r) = pair.deflates s bytes chunk size in
    let (v, r') = pair.inflates s t bytes chunk out r u chunk size in
    let small = pair.bounded s t bytes chunk out r in
    (
      out,
      t,
      v,
      compress_loop-Run deflate dl (3 * length bytes + 65) r [] (omega arith),
      small,
      decompress_loop-Run inflate il (length out + max_decompressed_size + 1) r' [] (omega arith)
          (omega arith),
    )
