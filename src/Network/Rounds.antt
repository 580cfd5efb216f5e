-- ===== src/Network/Rounds.antt =====
-- A round of the write task, and one of the reader, on a line whose payloads can be read.
use rfrp.Base.{
  ℕ, ◌+◌, ◌≡◌, refl, sym, ap, ◌∙◌, arith, List, [], ◌∷◌, ◌++◌, some, get_elem?, length-append, Bool,
  true, false, none, ◌*◌, ◌≤◌, ◌&&◌, leb, length, if◌then◌else◌, some_inj,
}
use mathlib.Core.Path.{subst}
use rfrp.Base.Result.{Result, ok}
use rfrp.Frame.{RfrpFrame, skip_fields}
use rfrp.Crypto.{ProtoError, Cipher, bump}
use rfrp.Crypto.RoundTrip.{IsCipher}
use rfrp.Compress.{returns}
use rfrp.Codec.{Crates, encode_encrypted}
use rfrp.Codec.Laws.{AreCrates}
use rfrp.Codec.RoundTrip.{decode-encode, decode-encode_sized}
use rfrp.WriteTask.Wire.{bump-IsCipher}
use rfrp.WriteTask.Reads.{returns_inj}
use rfrp.Network.Line.{Line, max_frame_len, write_round, read_wire, read_round}
use rfrp.Network.Carried.{Fits, IsSlim, Opens, IsCarrying, snoc-Carries}

module _ (crates : Crates) (laws : AreCrates crates) where
  -- A frame that fits is encoded, and what comes out can be read.
  encodes :
      (f : RfrpFrame) (c : Cipher) (buf : List ℕ) (compress : crates.deflate.State)
      → IsCipher c
      → (fitting : Fits crates f) → crates.inflate.State
      → (sealed : List ℕ) × (compress' : crates.deflate.State) × (encode_encrypted crates f c buf
            compress
          ≡ returns (sealed, [], bump c, compress'))
        × Opens crates c.key sealed f
        × (length sealed ≤ 2 * length fitting.0 + 92)
  encodes f c buf compress h (serialized, made, fits) state =
      let (sealed, plain, compress', _, encoded, _, size) =
        decode-encode_sized crates laws f c c h refl serialized made fits buf [] compress state in
      (
        sealed,
        compress',
        encoded,
        λ d decomp_buf decompress same.
            let (other, plain', _, decompress', again, decoded) =
              decode-encode crates laws f c d h same serialized made fits buf decomp_buf compress
                decompress in
            (
              plain',
              serialized,
              decompress',
              rw (ap (λ x. x.0) (returns_inj (sym encoded ∙ again))) decoded,
            ),
        size,
      )

  -- A round on what fits: the line that it comes to if it does not break can be read.
  round :
      (f : RfrpFrame) (l : Line crates) (sent : List RfrpFrame) (i : ℕ)
      → IsCarrying crates l sent i
      → get_elem? sent l.wrote ≡ some f
      → (fitting : Fits crates f)
      → (sealed : List ℕ) × (m : Line crates) × ((takes : Bool)
          → write_round crates takes f l
            ≡ returns (if takes && leb (length sealed) max_frame_len then some m else none))
        × (length sealed ≤ 2 * length fitting.0 + 92)
        × IsCarrying crates m sent i
        × (m.wrote ≡ l.wrote + 1)
  unfolding write_round
  round f l sent i v at fits =
      let (sealed, compress', encoded, opens, size) =
        encodes f l.cipher l.encode_buf l.compress v.ciphers fits l.decompress in
      (
        sealed,
        record l {
          cipher = bump l.cipher;
          encode_buf = [];
          compress = compress';
          wrote = l.wrote + 1;
          wire = l.wire ++ (sealed ∷ []);
        },
        λ takes. rw encoded refl,
        size,
        record {
          ciphers = bump-IsCipher l.cipher v.ciphers;
          same_key = unfold bump in v.same_key;
          carries =
              unfold bump in
              snoc-Carries crates l.cipher.key sent i l.wire sealed f
                (subst (λ n. get_elem? sent n ≡ some f) (sym v.counts) at) opens v.carries;
          counts = omega (arith, v.counts, length-append l.wire (sealed ∷ []));
        },
        refl,
      )

  -- A round that does not break leaves a line that can be read.
  pub write_round-IsCarrying :
      (takes : Bool) (f : RfrpFrame) (l m : Line crates) (sent : List RfrpFrame) (i : ℕ)
      → IsCarrying crates l sent i
      → get_elem? sent l.wrote ≡ some f
      → Fits crates f
      → write_round crates takes f l ≡ returns (some m)
      → IsCarrying crates m sent i
  write_round-IsCarrying takes f l m sent i v at fits e =
      let (sealed, m', round_is, _, v', _) = round f l sent i v at fits in
      let same =
        kept (takes && leb (length sealed) max_frame_len)
          (returns_inj (sym (round_is takes) ∙ e)) in
      subst (λ t. IsCarrying crates t sent i) same v'
    where
      kept : (b : Bool) {a c : Line crates} → (if b then some a else none) ≡ some c → a ≡ c
      kept true h = some_inj h
      kept false h = cc

  -- A round on a slim frame is within the limit of the codec, and breaks only if the writer fails.
  pub write_round-goes_on :
      (f : RfrpFrame) (l : Line crates) (sent : List RfrpFrame) (i : ℕ)
      → IsCarrying crates l sent i
      → get_elem? sent l.wrote ≡ some f
      → IsSlim crates f
      → (m : Line crates) × (write_round crates true f l ≡ returns (some m))
        × IsCarrying crates m sent i
        × (m.wrote ≡ l.wrote + 1)
  write_round-goes_on f l sent i v at slim =
      let (serialized, made, small) = slim in
      let (sealed, m, round_is, size, v', count) =
        round f l sent i v at (serialized, made, omega arith) in
      let within : leb (length sealed) max_frame_len ≡ true = ground arith in
      (m, round_is true ∙ rw within refl, v', count)

  -- A reader that waits for a payload has the next of the frames when there is one.
  pub read_wire-IsCarrying :
      (l : Line crates) (sent : List RfrpFrame) (i : ℕ) (bytes : List ℕ) (rest : List (List ℕ))
      → IsCarrying crates (record l { wire = bytes ∷ rest }) sent i
      → (f : RfrpFrame) × (m : Line crates) × (get_elem? sent i ≡ some f)
        × (read_wire crates (bytes ∷ rest) l ≡ returns (some (ok (skip_fields f), m)))
        × IsCarrying crates m sent (i + 1)
        × (m.wire ≡ rest)
        × (m.wrote ≡ l.wrote)
  unfolding read_wire
  read_wire-IsCarrying l sent i bytes rest v =
      let ((f, at, opens), later) = v.carries in
      let (plain, serialized, decompress', decoded) =
        opens l.reader l.decomp_buf l.decompress v.same_key in
      (
        f,
        record l { wire = rest; decomp_buf = serialized; decompress = decompress' },
        at,
        rw decoded refl,
        record {
          ciphers = v.ciphers;
          same_key = v.same_key;
          carries = later;
          counts = omega (arith, v.counts);
        },
        refl,
        refl,
      )

  pub read_round-next :
      (l : Line crates) (sent : List RfrpFrame) (i : ℕ) (bytes : List ℕ) (rest : List (List ℕ))
      → IsCarrying crates l sent i
      → l.wire ≡ bytes ∷ rest
      → (f : RfrpFrame) × (m : Line crates) × (get_elem? sent i ≡ some f)
        × (read_round crates l ≡ returns (some (ok (skip_fields f), m)))
        × IsCarrying crates m sent (i + 1)
        × (m.wire ≡ rest)
        × (m.wrote ≡ l.wrote)
  unfolding read_round
  read_round-next l sent i bytes rest v e =
      let (f, m, at, read, v', kept, same) =
        read_wire-IsCarrying l sent i bytes rest
          (subst (λ w. IsCarrying crates (record l { wire = w }) sent i) e v) in
      (f, m, at, ap (λ w. read_wire crates w l) e ∙ read, v', kept, same)

  waits :
      (l : Line crates) {r : Result ProtoError RfrpFrame} {m : Line crates}
      → read_wire crates [] l ≡ returns (some (r, m))
      → ⊥
  unfolding read_wire
  waits l h = cc

  wire_read :
      (wire : List (List ℕ)) (l : Line crates) (sent : List RfrpFrame) (i : ℕ)
      (r : Result ProtoError RfrpFrame) (m : Line crates)
      → IsCarrying crates (record l { wire = wire }) sent i
      → read_wire crates wire l ≡ returns (some (r, m))
      → (f : RfrpFrame) × (get_elem? sent i ≡ some f)
        × (r ≡ ok (skip_fields f))
        × IsCarrying crates m sent (i + 1)
  wire_read [] l sent i r m v h = absurd (waits l h)
  wire_read (bytes ∷ rest) l sent i r m v h =
      let (f, m', at, read, v', _, _) = read_wire-IsCarrying l sent i bytes rest v in
      let same = some_inj (returns_inj (sym h ∙ read)) in
      (
        f,
        at,
        ap (λ x. x.0) same,
        subst (λ t. IsCarrying crates t sent (i + 1)) (sym (ap (λ x. x.1) same)) v',
      )

  -- What a reader reads is the next of the frames.
  pub read_round-IsCarrying :
      (l : Line crates) (sent : List RfrpFrame) (i : ℕ) (r : Result ProtoError RfrpFrame)
      (m : Line crates)
      → IsCarrying crates l sent i
      → read_round crates l ≡ returns (some (r, m))
      → (f : RfrpFrame) × (get_elem? sent i ≡ some f)
        × (r ≡ ok (skip_fields f))
        × IsCarrying crates m sent (i + 1)
  unfolding read_round
  read_round-IsCarrying l sent i r m v h = wire_read l.wire l sent i r m v h
