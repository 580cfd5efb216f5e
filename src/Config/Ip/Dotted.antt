-- ===== src/Config/Ip/Dotted.antt =====
-- `is_ipv4` takes the dotted decimal texts, and no others.
use rfrp.Base.{
  ℕ, zero, suc, ◌+◌, ◌*◌, ◌/◌, ◌%◌, ◌≤◌, ◌<◌, ◌≡◌, refl, true, false, List, [], ◌∷◌, ◌++◌, Option,
  none, some, arith, ltb, ◌==◌, if◌then◌else◌, length, length-append, le→ltb, inl, inr, Bool-cases,
  Option-cases, some_inj, sym, ap, ◌∙◌,
}
use mathlib.Core.Path.{subst}
use mathlib.Core.Logic.{◌↔◌}
use mathlib.Core.List.{append_assoc, append-nil}
use rfrp.Config.Decimal.{digits, show}
use rfrp.Config.Ip.{
  to_digit, read_digits_upto, has_leading_zero, read_octet, read_given_char, read_separator,
  read_octets, is_done, is_ipv4,
}

-- One to three digits, with no zero in front.
octet_text : ℕ → List ℕ
octet_text n =
    if ltb n 10
    then (b'0' + n) ∷ []
    else if ltb n 100
    then (b'0' + n / 10) ∷ (b'0' + n % 10) ∷ []
    else (b'0' + n / 100) ∷ (b'0' + n / 10 % 10) ∷ (b'0' + n % 10) ∷ []

octet_text-show : (n : ℕ) → n < 256 → show n ≡ octet_text n
unfolding octet_text show digits
octet_text-show n h = ground arith

to_digit-some : (b : ℕ) {v : ℕ} → to_digit 10 b ≡ some v → (b ≡ b'0' + v) × (v < 10)
unfolding to_digit
to_digit-some b h = ground arith

abbrev IsOctet : List ℕ → Option (ℕ × List ℕ) → Type 0
IsOctet bs none = Unit
IsOctet bs (some (v, rest)) = (v < 256) × (bs ≡ octet_text v ++ rest)

read_octet_sound : (bs : List ℕ) → IsOctet bs (read_octet bs)
unfolding read_octet read_digits_upto has_leading_zero to_digit octet_text
read_octet_sound [] = tt
read_octet_sound (a ∷ []) = ground arith
read_octet_sound (a ∷ b ∷ []) = ground arith
read_octet_sound (a ∷ b ∷ c ∷ []) = ground arith
read_octet_sound (a ∷ b ∷ c ∷ d ∷ bs) = ground arith

-- The separator in front of octet `i`.
abbrev pub dot : ℕ → List ℕ
dot i = if i == 0 then [] else b'.' ∷ []

separated_sound :
    (i : ℕ) (bs : List ℕ) {v : ℕ} {rest : List ℕ}
    → read_separator b'.' i read_octet bs ≡ some (v, rest)
    → (v < 256) × (bs ≡ dot i ++ (octet_text v ++ rest))
unfolding read_separator read_given_char
separated_sound i bs {v} {rest} h = elim (Bool-cases (i == 0)) [
  | inl first ↦ rw first (subst (IsOctet bs) (rw first at h) (read_octet_sound bs))
  | inr later ↦ rw later (by_dot bs (rw later at h))
]
  where
    by_dot :
        (bs : List ℕ)
        → read_separator b'.' 1 read_octet bs ≡ some (v, rest)
        → (v < 256) × (bs ≡ b'.' ∷ (octet_text v ++ rest))
    by_dot [] h = cc
    by_dot (b ∷ bs) h = elim (Bool-cases (b == b'.')) [
      | inl yes_dot ↦
          let (small, text) : IsOctet bs (some (v, rest)) =
            subst (IsOctet bs) (rw yes_dot at h) (read_octet_sound bs) in
          (small, ground (arith, text))
      | inr no_dot ↦ cc (rw no_dot at h)
    ]

-- Octets with their dots, from octet `i` on.
abbrev pub dotted : ℕ → List ℕ → List ℕ
dotted i [] = []
dotted i (v ∷ vs) = dot i ++ (show v ++ dotted (i + 1) vs)

abbrev pub AllSmall : List ℕ → Type 0
AllSmall [] = Unit
AllSmall (v ∷ vs) = (v < 256) × AllSmall vs

read_octets_sound :
    (left i : ℕ) (bs vs rest : List ℕ)
    → read_octets left i bs ≡ some (vs, rest)
    → (length vs ≡ left) × AllSmall vs × (bs ≡ dotted i vs ++ rest)
unfolding read_octets
read_octets_sound zero i bs [] rest h = (refl, tt, cc)
read_octets_sound zero i bs (v ∷ vs) rest h = cc
read_octets_sound (suc left) i bs vs rest h =
    elim (Option-cases (read_separator b'.' i read_octet bs)) [
      | inl e ↦ cc (rw (e, read_octets) at h)
      | inr ((o, r), e) ↦ elim (Option-cases (read_octets left (i + 1) r)) [
        | inl e' ↦ cc (rw (e, e', read_octets) at h)
        | inr ((os, r'), e') ↦
            let (small, text) = separated_sound i bs e in
            let (size, all_small, texts) = read_octets_sound left (i + 1) r os r' e' in
            let size' : length (o ∷ os) ≡ suc left = omega (arith, size) in
            let both : some (o ∷ os, r') ≡ some (vs, rest) = rw (e, e', read_octets) at h in
            let same : o ∷ os ≡ vs = ap (λ p. p.0) (some_inj both) in
            let end : r' ≡ rest = ap (λ p. p.1) (some_inj both) in
            rw (← same, ← end)
              (
                size',
                (small, all_small),
                text
                    ∙ ap (λ l. dot i ++ (l ++ r)) (sym (octet_text-show o small))
                    ∙ ap (λ l. dot i ++ (show o ++ l)) texts
                    ∙ ap (λ l. dot i ++ l) (sym (append_assoc (show o) (dotted (i + 1) os) r'))
                    ∙ sym (append_assoc (dot i) (show o ++ dotted (i + 1) os) r'),
              )
      ]
    ]

-- No digit follows: the text ends, or a dot stands there.
data EndsOctet : List ℕ → Type 0 where
  at_end : EndsOctet []
  at_dot : (bs : List ℕ) → EndsOctet (b'.' ∷ bs)

read_octet-octet_text :
    (v : ℕ) (rest : List ℕ)
    → v < 256
    → EndsOctet rest
    → read_octet (octet_text v ++ rest) ≡ some (v, rest)
unfolding read_octet read_digits_upto has_leading_zero to_digit octet_text
read_octet-octet_text v _ h at_end = ground arith
read_octet-octet_text v _ h (at_dot bs) = ground arith

dotted-EndsOctet : (i : ℕ) (vs : List ℕ) → EndsOctet (dotted (i + 1) vs)
dotted-EndsOctet i [] = at_end
dotted-EndsOctet i (v ∷ vs) =
    let later : ((i + 1) == 0) ≡ false = ground arith in
    rw later (at_dot (show v ++ dotted (i + 1 + 1) vs))

separated-dot :
    (i v : ℕ) (rest : List ℕ)
    → v < 256
    → EndsOctet rest
    → read_separator b'.' i read_octet (dot i ++ (show v ++ rest)) ≡ some (v, rest)
unfolding read_separator read_given_char
separated-dot i v rest h ends = elim (Bool-cases (i == 0)) [
  | inl first ↦
      rw (octet_text-show v h, first, read_separator) (read_octet-octet_text v rest h ends)
  | inr later ↦
      rw (octet_text-show v h, later, read_separator) (read_octet-octet_text v rest h ends)
]

read_octets-dotted :
    (vs : List ℕ) (i : ℕ) → AllSmall vs → read_octets (length vs) i (dotted i vs) ≡ some (vs, [])
unfolding read_octets
read_octets-dotted [] i h = refl
read_octets-dotted (v ∷ vs) i (small, all_small) =
    rw
      (
        separated-dot i v (dotted (i + 1) vs) small (dotted-EndsOctet i vs),
        read_octets-dotted vs (i + 1) all_small,
        read_octets,
      )
      refl

length-octet_text : (v : ℕ) → length (octet_text v) ≤ 3
unfolding octet_text
length-octet_text v = ground arith

length-dot : (i : ℕ) → length (dot i) ≤ 1
length-dot i = ground arith

length-dotted : (vs : List ℕ) (i : ℕ) → AllSmall vs → length (dotted i vs) ≤ 4 * length vs
length-dotted [] i h = omega arith
length-dotted (v ∷ vs) i (small, all_small) = omega (
  arith,
  length-append (dot i) (show v ++ dotted (i + 1) vs),
  length-append (show v) (dotted (i + 1) vs),
  length-dot i,
  length-octet_text v,
  ap length (octet_text-show v small),
  length-dotted vs (i + 1) all_small,
)

dotted_short : (vs : List ℕ) → length vs ≡ 4 → AllSmall vs → length (dotted 0 vs) ≤ 15
dotted_short [] size h = absurd (omega arith)
dotted_short (v ∷ vs) size (small, all_small) = omega (
  arith,
  length-append (show v) (dotted 1 vs),
  length-octet_text v,
  ap length (octet_text-show v small),
  length-dotted vs 1 all_small,
)

-- Four numbers below 256 in decimal, as `{}` prints them, with dots between: no zero in front, no sign,
-- no space, no shorter form.
abbrev pub IsDotted : List ℕ → Type 0
IsDotted t = (vs : List ℕ) × (length vs ≡ 4) × AllSmall vs × (t ≡ dotted 0 vs)

-- The standard library takes exactly these texts for IPv4 addresses.
pub is_ipv4_iff : (t : List ℕ) → (is_ipv4 t ≡ true) ↔ IsDotted t
unfolding is_ipv4
is_ipv4_iff t = (
  λ h. elim (Option-cases (read_octets 4 0 t)) [
    | inl e ↦ cc (rw e at (tried h))
    | inr ((vs, rest), e) ↦ whole vs rest e (rw e at (tried h))
  ],
  λ (vs, size, small, text).
      rw (text, le→ltb 15 (length (dotted 0 vs)) (dotted_short vs size small))
        (subst (λ n. is_done (read_octets n 0 (dotted 0 vs)) ≡ true) size
          (rw (read_octets-dotted vs 0 small) refl)),
)
  where
    tried : is_ipv4 t ≡ true → is_done (read_octets 4 0 t) ≡ true
    tried h = ground arith

    whole :
        (vs rest : List ℕ)
        → read_octets 4 0 t ≡ some (vs, rest)
        → is_done (some (vs, rest)) ≡ true
        → (vs : List ℕ) × (length vs ≡ 4) × AllSmall vs × (t ≡ dotted 0 vs)
    whole vs [] e h =
        let (size, small, text) = read_octets_sound 4 0 t vs [] e in
        (vs, size, small, text ∙ append-nil (dotted 0 vs))
    whole vs (b ∷ rest) e h = cc
