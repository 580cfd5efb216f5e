-- ===== src/Config/Decimal.antt =====
-- The decimal digits that `{}` prints for a u16, and that they can be read back.
use rfrp.Base.{
  ℕ, zero, suc, ◌+◌, ◌-◌, ◌*◌, ◌/◌, ◌%◌, ◌^◌, ◌<◌, ◌≡◌, refl, List, [], ◌∷◌, ◌++◌, arith, ltb,
  if◌then◌else◌,
}
use native.Mathlib.Nat.{pow-suc}

-- At most `k` digits, the last ones of the number.
unfoldable pub digits : ℕ → ℕ → List ℕ
digits zero n = []
digits (suc k) n =
    let front = digits k (n / 10) in
    if ltb n 10 then (b'0' + n) ∷ [] else front ++ ((b'0' + n % 10) ∷ [])

-- A u16 has at most five digits.
unfoldable pub show : ℕ → List ℕ
unfolding digits
show n = digits 5 n

unfoldable pub read_digits : ℕ → List ℕ → ℕ
read_digits acc [] = acc
read_digits acc (b ∷ bs) = read_digits (acc * 10 + (b - b'0')) bs

read_digits-snoc :
    (acc : ℕ) (bs : List ℕ) (b : ℕ)
    → read_digits acc (bs ++ (b ∷ [])) ≡ read_digits acc bs * 10 + (b - b'0')
unfolding read_digits
read_digits-snoc acc [] b = refl
read_digits-snoc acc (x ∷ bs) b = read_digits-snoc (acc * 10 + (x - b'0')) bs b

read_digits-digits : (k n : ℕ) → n < 10 ^ suc k → read_digits 0 (digits (suc k) n) ≡ n
unfolding digits
read_digits-digits zero n h = unfold read_digits in ground arith
read_digits-digits (suc k) n h = ground (
  arith,
  small n,
  read_digits-snoc 0 (digits (suc k) (n / 10)) (b'0' + n % 10),
  read_digits-digits k (n / 10) (omega (arith, pow-suc 10 (suc k))),
)
  where
    small : (n : ℕ) → read_digits 0 ((b'0' + n) ∷ []) ≡ n
    small n = unfold read_digits in omega arith

pub read_digits-show : (n : ℕ) → n < 2 ^ 16 → read_digits 0 (show n) ≡ n
unfolding show
read_digits-show n h = read_digits-digits 4 n (omega arith)

-- All bytes below `c`. No digit is a colon: the digits stand below it.
unfoldable pub Below : ℕ → List ℕ → Type 0
Below c [] = Unit
Below c (b ∷ bs) = (b < c) × Below c bs

Below-snoc : (c b : ℕ) (bs : List ℕ) → Below c bs → b < c → Below c (bs ++ (b ∷ []))
unfolding Below
Below-snoc c b [] h l = (l, tt)
Below-snoc c b (x ∷ bs) h l = (h.0, Below-snoc c b bs h.1 l)

digits-Below : (k n : ℕ) → Below b':' (digits k n)
unfolding digits
digits-Below zero n = unfold Below in tt
digits-Below (suc k) n = ground (
  arith,
  one n,
  Below-snoc b':' (b'0' + n % 10) (digits k (n / 10)) (digits-Below k (n / 10)) (omega arith),
)
  where
    one : (n : ℕ) → n < 10 → Below b':' ((b'0' + n) ∷ [])
    one n h = unfold Below in (omega arith, tt)

pub show-Below : (n : ℕ) → Below b':' (show n)
unfolding show
show-Below n = digits-Below 5 n
