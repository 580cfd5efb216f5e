-- ===== src/Streams/Server.antt =====
-- The server's main loop over a wire that decodes to some frames.
use rfrp.Base.{ℕ, arith, ◌≡◌, refl, ap, ◌∙◌, List, [], ◌∷◌}
use rfrp.Base.Result.{ok}
use rfrp.Frame.{RfrpFrame, register, register_ack, control, data_frame, skip_fields}
use rfrp.Crypto.{Cipher}
use rfrp.Compress.{Outcome, returns}
use rfrp.Codec.{Crates, decode_encrypted_bytes_mut}
use rfrp.Codec.Laws.{AreCrates}
use rfrp.WriteTask.Wire.{read_all, as_read}
use rfrp.WriteTask.Reads.{read_all-Unfolds}
use rfrp.Server.{Session, Next, goes_on, breaks, on_frame, on_register, on_control, on_data}
use rfrp.Server.Invariant.{IsCoherent, session_of, on_frame-IsCoherent}
use rfrp.Server.Service.{Service, Provides, serve}
use rfrp.Server.Routes.{on_frame-Provides}
use rfrp.Server.Loop.{Event, Progress, payload, waiting, finish, main_loop}
use rfrp.Streams.Client.{skipped}
use rfrp.Streams.Outbound.{all_open, serve_all}

abbrev pub arrivals : List (List ℕ) → List Event
arrivals [] = []
arrivals (bytes ∷ wire) = payload all_open bytes ∷ arrivals wire

-- With every receiver there, no frame ends the loop.
on_frame-goes_on :
    (f : RfrpFrame) (s : Session)
    → on_frame all_open f s ≡ goes_on (session_of (on_frame all_open f s))
unfolding on_frame on_register on_control on_data
on_frame-goes_on (register i) s = ground arith
on_frame-goes_on (register_ack r) s = refl
on_frame-goes_on (control i) s = ground arith
on_frame-goes_on (data_frame d) s = refl

module _ (crates : Crates) (laws : AreCrates crates) (d : Cipher) where
  main_loop-payload :
      (bytes : List ℕ) (es : List Event) (g : RfrpFrame) (decomp_buf : List ℕ)
      (decompress : crates.inflate.State) (s s' : Session) {buf decomp_buf' : List ℕ}
      {decompress' : crates.inflate.State}
      → decode_encrypted_bytes_mut crates bytes d decomp_buf decompress
        ≡ returns (ok g, buf, decomp_buf', decompress')
      → on_frame all_open g s ≡ goes_on s'
      → main_loop crates d (payload all_open bytes ∷ es) decomp_buf decompress s
        ≡ main_loop crates d es decomp_buf' decompress' s'
  unfolding main_loop
  main_loop-payload bytes es g decomp_buf decompress s s' {decomp_buf'} {decompress'} decoded
        stepped =
      rw (decoded, main_loop)
        (ap
          (λ (n : Next). elim n as (λ _. Outcome Progress) [
            | breaks s' ↦ returns (finish s')
            | goes_on s' ↦ main_loop crates d es decomp_buf' decompress' s'
          ])
          stepped)

  pub main_loop-arrivals :
      (wire : List (List ℕ)) (fs : List RfrpFrame) (decomp_buf : List ℕ)
      (decompress : crates.inflate.State) (s : Session) (a : Service)
      → IsCoherent s
      → Provides s a
      → read_all crates wire d decomp_buf decompress ≡ returns (as_read fs)
      → (s' : Session) × (main_loop crates d (arrivals wire) decomp_buf decompress s
          ≡ returns (waiting s'))
        × IsCoherent s'
        × Provides s' (serve_all (skipped fs) a)
  unfolding main_loop
  main_loop-arrivals [] [] decomp_buf decompress s a v m h = (s, refl, v, m)
  main_loop-arrivals [] (f ∷ fs) decomp_buf decompress s a v m h = unfold read_all in cc
  main_loop-arrivals (bytes ∷ wire) [] decomp_buf decompress s a v m h =
      let (r, rs, buf, decomp_buf', decompress', e, decoded, later) =
        read_all-Unfolds crates laws bytes wire d decomp_buf decompress [] h in
      cc
  main_loop-arrivals (bytes ∷ wire) (f ∷ fs) decomp_buf decompress s a v m h =
      let (r, rs, buf, decomp_buf', decompress', e, decoded, later) =
        read_all-Unfolds crates laws bytes wire d decomp_buf decompress (as_read (f ∷ fs)) h in
      let first : r ≡ ok (skip_fields f) = cc in
      let rest : rs ≡ as_read fs = cc in
      let g = skip_fields f in
      let (s', ran, v', m') =
        main_loop-arrivals wire fs decomp_buf' decompress' (session_of (on_frame all_open g s))
          (serve all_open g a) (on_frame-IsCoherent all_open g s v)
          (on_frame-Provides all_open g s a v m) (later ∙ ap returns rest) in
      (
        s',
        main_loop-payload bytes (arrivals wire) g decomp_buf decompress s
              (session_of (on_frame all_open g s)) (rw first at decoded) (on_frame-goes_on g s)
            ∙ ran,
        v',
        m',
      )
