-- ===== src/Base/Bytes.antt =====
-- Texts as their UTF-8 bytes, decimal numbers and big-endian words.
use rfrp.Base.Lists.{length, length-append}
use Prim.Native.Nat.{ℕ, zero, suc, ◌+◌, ◌*◌, ◌/◌, ◌%◌, ◌^◌, ◌<◌}
use Prim.Native.Char.{code}
use Prim.Native.String.{String}
use mathlib.Core.Path.{◌≡◌, refl, ap, ◌∙◌, sym}
use mathlib.Core.List.{List, [], ◌∷◌, ◌++◌}
use native.Mathlib.Omega.{arith}
use native.Mathlib.Nat.{pow-suc}

-- The bytes of an ASCII literal.
abbrev pub codes : String → List ℕ
codes String.[] = []
codes (String.◌∷◌ c s) = code c ∷ codes s

-- `to_be_bytes` of a word of `k` bytes.
unfoldable pub to_be_bytes : ℕ → ℕ → List ℕ
to_be_bytes zero n = []
to_be_bytes (suc k) n = to_be_bytes k (n / 256) ++ (n % 256 ∷ [])

-- The value of a big-endian word, read from the left after `acc`.
unfoldable pub from_be_bytes : ℕ → List ℕ → ℕ
from_be_bytes acc [] = acc
from_be_bytes acc (b ∷ bs) = from_be_bytes (acc * 256 + b) bs

pub length-to_be_bytes : (k n : ℕ) → length (to_be_bytes k n) ≡ k
unfolding to_be_bytes
length-to_be_bytes zero n = refl
length-to_be_bytes (suc k) n =
    length-append (to_be_bytes k (n / 256)) (n % 256 ∷ [])
    ∙ omega (arith, length-to_be_bytes k (n / 256))

from_be_bytes-snoc :
    (acc : ℕ) (bs : List ℕ) (b : ℕ)
    → from_be_bytes acc (bs ++ (b ∷ [])) ≡ from_be_bytes acc bs * 256 + b
unfolding from_be_bytes
from_be_bytes-snoc acc [] b = refl
from_be_bytes-snoc acc (x ∷ bs) b = from_be_bytes-snoc (acc * 256 + x) bs b

pub from_be_bytes-to_be_bytes : (k n : ℕ) → n < 256 ^ k → from_be_bytes 0 (to_be_bytes k n) ≡ n
unfolding to_be_bytes
from_be_bytes-to_be_bytes zero n h = unfold from_be_bytes in omega arith
from_be_bytes-to_be_bytes (suc k) n h =
    from_be_bytes-snoc 0 (to_be_bytes k (n / 256)) (n % 256)
    ∙ omega (arith, from_be_bytes-to_be_bytes k (n / 256) (div-lt-pow k n h))
  where
    div-lt-pow : (k n : ℕ) → n < 256 ^ suc k → n / 256 < 256 ^ k
    div-lt-pow k n h = omega (arith, pow-suc 256 k)

pub to_be_bytes_injective :
    (k m n : ℕ) → m < 256 ^ k → n < 256 ^ k → to_be_bytes k m ≡ to_be_bytes k n → m ≡ n
to_be_bytes_injective k m n hm hn e =
    sym (from_be_bytes-to_be_bytes k m hm)
    ∙ ap (from_be_bytes 0) e
    ∙ from_be_bytes-to_be_bytes k n hn
