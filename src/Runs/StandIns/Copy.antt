-- ===== src/Runs/StandIns/Copy.antt =====
-- A compressor that copies, a chunk at a time; it is its own decompressor.
use rfrp.Base.{
  ℕ, zero, suc, ◌+◌, ◌-◌, ◌≤◌, ◌<◌, ◌≡◌, refl, sym, ap, ◌∙◌, true, List, ◌++◌, inl, inr, some, min,
  arith, leb, if◌then◌else◌, length, take, drop, length-append, length-take, length-drop,
  take-append, take_all, take-append-drop, Bool-cases,
}
use mathlib.Core.Path.{subst}
use rfrp.Compress.{Flate, Status, stream_end, ok_status}
use rfrp.Compress.Laws.{IsFlate, Run, last, more, IsLossless}

-- Both totals.
pub record Totals : Type 0 where
  pub total_in : ℕ
  pub total_out : ℕ

abbrev copied : List ℕ → List ℕ → ℕ
copied input chunk = min (length input) (length chunk)

abbrev copy_status : List ℕ → List ℕ → Status
copy_status input chunk = if leb (length input) (length chunk) then stream_end else ok_status

abbrev copy_chunk : List ℕ → List ℕ → List ℕ
copy_chunk input chunk = take (copied input chunk) input ++ drop (copied input chunk) chunk

abbrev copy_totals : Totals → ℕ → Totals
copy_totals s n = record { total_in = s.total_in + n; total_out = s.total_out + n }

abbrev pub copier : Flate
copier = record {
  State = Totals;
  reset = λ s. record { total_in = 0; total_out = 0 };
  total_in = λ s. s.total_in;
  total_out = λ s. s.total_out;
  run = λ s input chunk.
      some (copy_totals s (copied input chunk), copy_status input chunk, copy_chunk input chunk);
}

length-copy_chunk : (input chunk : List ℕ) → length (copy_chunk input chunk) ≡ length chunk
length-copy_chunk input chunk =
    length-append (take (copied input chunk) input) (drop (copied input chunk) chunk)
    ∙ omega (arith, length-take (copied input chunk) input, length-drop (copied input chunk) chunk)

-- The start of the chunk is the start of the input.
take-copy_chunk :
    (input chunk : List ℕ) (n : ℕ)
    → n ≡ copied input chunk
    → take n (copy_chunk input chunk) ≡ take n input
take-copy_chunk input chunk n e =
    take-append n (take (copied input chunk) input) _
      (omega (arith, length-take (copied input chunk) input))
    ∙ ap (λ m. take m input) (sym e)

module _ (s : Totals) (input chunk : List ℕ) {s' : Totals} {chunk' : List ℕ} {st : Status}
    (e : copier.run s input chunk ≡ some (s', st, chunk')) where
  call_totals : copy_totals s (copied input chunk) ≡ s'
  call_totals = cc

  call_status : copy_status input chunk ≡ st
  call_status = cc

  call_chunk : copy_chunk input chunk ≡ chunk'
  call_chunk = cc

  call_in : s'.total_in - s.total_in ≡ copied input chunk
  call_in = omega (arith, ap (λ (t : Totals). t.total_in) call_totals)

  call_out : s'.total_out - s.total_out ≡ copied input chunk
  call_out = omega (arith, ap (λ (t : Totals). t.total_out) call_totals)

  call_front : take (s'.total_out - s.total_out) chunk' ≡ take (copied input chunk) input
  call_front =
      subst (λ c. take (s'.total_out - s.total_out) c ≡ take (copied input chunk) input) call_chunk
        (rw call_out (take-copy_chunk input chunk _ refl))

pub copier-IsFlate : IsFlate copier
copier-IsFlate = record {
  reads = λ s input chunk s' st chunk' e. omega (arith, call_in s input chunk e);
  writes = λ s input chunk s' st chunk' e. (
    ap length (sym (call_chunk s input chunk e)) ∙ length-copy_chunk input chunk,
    omega (arith, call_out s input chunk e),
  );
}

-- A stream of the copier is its input.
copy_same : {s t : Totals} {input chunk out : List ℕ} → Run copier s input chunk out t → out ≡ input
copy_same {s} {input = input} {chunk = chunk} (last e eo) =
    eo
    ∙ call_front s input chunk e
    ∙ take_all (copied input chunk) input (whole (call_status s input chunk e))
  where
    whole : copy_status input chunk ≡ stream_end → length input ≤ copied input chunk
    whole h = ground arith
copy_same {s} {input = input} {chunk = chunk} (more {rest = rest} e going go ei r eo) =
    eo
    ∙ ap (λ l. l ++ rest) (call_front s input chunk e)
    ∙ ap (λ l. take (copied input chunk) input ++ l)
        (copy_same r ∙ ei ∙ ap (λ n. drop n input) (call_in s input chunk e))
    ∙ take-append-drop (copied input chunk) input

-- A call whose input fits the chunk is the last one.
copy_last :
    (s : Totals) (input chunk : List ℕ)
    → leb (length input) (length chunk) ≡ true
    → Run copier s input chunk input (copy_totals s (copied input chunk))
copy_last s input chunk fits = last {chunk' = copy_chunk input chunk} (rw fits) (
    sym (
      take-copy_chunk input chunk (s.total_out + copied input chunk - s.total_out) (omega arith)
      ∙ take_all (s.total_out + copied input chunk - s.total_out) input (ground arith)))

copies :
    (k : ℕ) (s : Totals) (input chunk : List ℕ)
    → length input ≤ k
    → 0 < length chunk
    → (t : Totals) × Run copier s input chunk input t
copies zero s input chunk le room = (_, copy_last s input chunk (ground arith))
copies (suc k) s input chunk le room = elim (Bool-cases (leb (length input) (length chunk))) [
  | inl fits ↦ (_, copy_last s input chunk fits)
  | inr big ↦
      let n = copied input chunk in
      let (t, r) =
        copies k (copy_totals s n) (drop n input) (copy_chunk input chunk)
          (ground (arith, length-drop n input)) (omega (arith, length-copy_chunk input chunk)) in
      (
        t,
        more {chunk' = copy_chunk input chunk} refl (λ e. ground arith) (ground arith)
            (let e : n ≡ s.total_in + n - s.total_in = omega arith in ap (λ m. drop m input) e) r
            (sym (
              ap (λ l. l ++ drop n input)
                (take-copy_chunk input chunk (s.total_out + n - s.total_out) (omega arith)
                  ∙ ap (λ m. take m input)
                      (let e : s.total_out + n - s.total_out ≡ n = omega arith in e))
              ∙ take-append-drop n input)),
      )
]

pub copier-IsLossless : IsLossless copier copier
copier-IsLossless = record {
  deflates = λ s bytes chunk size.
      let (t, r) = copies (length bytes) (copier.reset s) bytes chunk (omega arith) (omega arith) in
      (bytes, t, r);
  bounded = λ s t bytes chunk out r. omega (arith, ap length (copy_same r));
  inflates = λ s t bytes chunk out r u fresh size.
      let (v, r') =
        copies (length bytes) (copier.reset u) bytes fresh (omega arith) (omega arith) in
      (v, subst (λ l. Run copier (copier.reset u) l fresh bytes v) (sym (copy_same r)) r');
}
