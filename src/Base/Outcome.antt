-- ===== src/Base/Outcome.antt =====
-- How a call of the source ends, and Rust's operations on slices and machine words that may panic.
use rfrp.Base.{
  ℕ, ◌+◌, ◌-◌, ◌≤◌, ◌≡◌, ◌&&◌, List, Option, none, some, arith, leb, ◌==◌, if◌then◌else◌, length,
  take, drop,
}

-- It returns, it panics, or the fuel of its loop has run out.
pub data Outcome {ℓ} (A : Type ℓ) : Type ℓ where
  returns : A → Outcome A
  panics : Outcome A
  out_of_fuel : Outcome A

infixl 5 ◌>>=◌
abbrev pub ◌>>=◌ {ℓ κ} : {A : Type ℓ} {B : Type κ} → Outcome A → (A → Outcome B) → Outcome B
returns a >>= f = f a
panics >>= f = panics
out_of_fuel >>= f = out_of_fuel

-- `expect` on a value that may be missing.
abbrev pub expect {ℓ} : {A : Type ℓ} → Option A → Outcome A
expect none = panics
expect (some a) = returns a

-- `a - b` on usize. Without overflow checks it wraps, and the slices behind it panic.
unfoldable pub checked_sub : ℕ → ℕ → Outcome ℕ
checked_sub a b = if leb b a then returns (a - b) else panics

-- `&v[..n]`, `&v[n..]` and `&v[a..b]`
unfoldable pub slice_to : List ℕ → ℕ → Outcome (List ℕ)
slice_to v n = if leb n (length v) then returns (take n v) else panics

unfoldable pub slice_from : List ℕ → ℕ → Outcome (List ℕ)
slice_from v n = if leb n (length v) then returns (drop n v) else panics

unfoldable pub slice : List ℕ → ℕ → ℕ → Outcome (List ℕ)
slice v a b = if leb a b && leb b (length v) then returns (take (b - a) (drop a v)) else panics

-- `copy_from_slice` to an array of `n` bytes.
unfoldable pub copied : ℕ → List ℕ → Outcome (List ℕ)
copied n v = if length v == n then returns v else panics

pub checked_sub-le : (a b : ℕ) → b ≤ a → checked_sub a b ≡ returns (a - b)
unfolding checked_sub
checked_sub-le a b h = ground arith

pub slice_to-le : (v : List ℕ) (n : ℕ) → n ≤ length v → slice_to v n ≡ returns (take n v)
unfolding slice_to
slice_to-le v n h = ground arith

pub slice_from-le : (v : List ℕ) (n : ℕ) → n ≤ length v → slice_from v n ≡ returns (drop n v)
unfolding slice_from
slice_from-le v n h = ground arith

pub slice-le :
    (v : List ℕ) (a n : ℕ) → a + n ≤ length v → slice v a (a + n) ≡ returns (take n (drop a v))
unfolding slice
slice-le v a n h = let e : a + n - a ≡ n = omega arith in rw e (ground arith)

pub copied-eq : (n : ℕ) (v : List ℕ) → length v ≡ n → copied n v ≡ returns v
unfolding copied
copied-eq n v h = ground arith
