-- ===== src/Streams/Client.antt =====
-- The client's main loop over a wire that decodes to some frames.
use rfrp.Base.{ℕ, ◌≡◌, refl, ap, ◌∙◌, List, [], ◌∷◌}
use rfrp.Base.Result.{ok}
use rfrp.Frame.{RfrpFrame, skip_fields}
use rfrp.Crypto.{Cipher}
use rfrp.Compress.{returns}
use rfrp.Codec.{Crates}
use rfrp.Codec.Laws.{AreCrates}
use rfrp.WriteTask.Wire.{read_all, as_read}
use rfrp.WriteTask.Reads.{read_all-Unfolds}
use rfrp.Client.{Session, on_frame}
use rfrp.Client.Tunnel.{Tunnel, relay}
use rfrp.Client.Mirrors.{Mirrors}
use rfrp.Client.Links.{on_frame-Mirrors}
use rfrp.Client.Loop.{Event, payload, waiting, main_loop}
use rfrp.Streams.Inbound.{calm, relay_all}

-- What the reader gives: the payloads of the wire, one by one.
abbrev pub arrivals : List (List ℕ) → List Event
arrivals [] = []
arrivals (bytes ∷ wire) = payload calm bytes ∷ arrivals wire

-- The frames as they are read.
abbrev pub skipped : List RfrpFrame → List RfrpFrame
skipped [] = []
skipped (f ∷ fs) = skip_fields f ∷ skipped fs

module _ (crates : Crates) (laws : AreCrates crates) (d : Cipher) where
  pub main_loop-arrivals :
      (wire : List (List ℕ)) (fs : List RfrpFrame) (decomp_buf : List ℕ)
      (decompress : crates.inflate.State) (s : Session) (t : Tunnel)
      → Mirrors s t
      → read_all crates wire d decomp_buf decompress ≡ returns (as_read fs)
      → (s' : Session) × (main_loop crates d (arrivals wire) decomp_buf decompress s
          ≡ returns (waiting s'))
        × Mirrors s' (relay_all (skipped fs) t)
  unfolding main_loop
  main_loop-arrivals [] [] decomp_buf decompress s t m h = (s, refl, m)
  main_loop-arrivals [] (f ∷ fs) decomp_buf decompress s t m h = unfold read_all in cc
  main_loop-arrivals (bytes ∷ wire) [] decomp_buf decompress s t m h =
      let (r, rs, buf, decomp_buf', decompress', e, decoded, later) =
        read_all-Unfolds crates laws bytes wire d decomp_buf decompress [] h in
      cc
  main_loop-arrivals (bytes ∷ wire) (f ∷ fs) decomp_buf decompress s t m h =
      let (r, rs, buf, decomp_buf', decompress', e, decoded, later) =
        read_all-Unfolds crates laws bytes wire d decomp_buf decompress (as_read (f ∷ fs)) h in
      let first : r ≡ ok (skip_fields f) = cc in
      let rest : rs ≡ as_read fs = cc in
      let (s', ran, m') =
        main_loop-arrivals wire fs decomp_buf' decompress' (on_frame calm (skip_fields f) s)
          (relay calm (skip_fields f) t) (on_frame-Mirrors calm (skip_fields f) s t m)
          (later ∙ ap returns rest) in
      (s', rw (decoded, first, main_loop) ran, m')
