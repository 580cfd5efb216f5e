-- ===== src/Base/Dict.antt =====
-- A DashMap under numeric keys, seen as the function that its `get` is. A missing key gives `none`.
use rfrp.Base.Tests.{◌==◌, if◌then◌else◌}
use Prim.Native.Nat.{ℕ}
use mathlib.Core.Option.{Option, none, some}

abbrev pub Dict {ℓ} : Type ℓ → Type ℓ
Dict V = ℕ → Option V

module _ {ℓ} {V : Type ℓ} where
  abbrev pub empty : Dict V
  empty = λ k. none

  abbrev pub insert : ℕ → V → Dict V → Dict V
  insert k v m = λ j. if j == k then some v else m j

  abbrev pub remove : ℕ → Dict V → Dict V
  remove k m = λ j. if j == k then none else m j

-- A store of shared objects: `Arc::clone` copies an address, and a write is seen through each.
abbrev pub write_at {ℓ} : {A : Type ℓ} → ℕ → A → (ℕ → A) → ℕ → A
write_at i a heap = λ j. if j == i then a else heap j
