-- ===== src/Proxy/Tasks.antt =====
-- The read tasks that run, as a list without repetition.
use rfrp.Base.{ℕ, ◌+◌, ◌≡◌, refl, true, false, List, [], ◌∷◌, arith, ◌==◌, if◌then◌else◌, length}
use rfrp.Proxy.{runs, leave}

-- No task runs twice.
abbrev pub IsDistinct : List ℕ → Type 0
IsDistinct [] = Unit
IsDistinct (c ∷ cs) = (runs c cs ≡ false) × IsDistinct cs

pub runs-leave :
    (c d : ℕ) (cs : List ℕ) → runs d (leave c cs) ≡ (if d == c then false else runs d cs)
unfolding runs leave
runs-leave c d [] = ground arith
runs-leave c d (x ∷ xs) = ground (arith, runs-leave c d xs)

pub leave-same : (c : ℕ) (cs : List ℕ) → runs c cs ≡ false → leave c cs ≡ cs
unfolding runs leave
leave-same c [] h = refl
leave-same c (x ∷ xs) h = ground (arith, leave-same c xs)

pub leave-IsDistinct : (c : ℕ) (cs : List ℕ) → IsDistinct cs → IsDistinct (leave c cs)
unfolding runs leave
leave-IsDistinct c [] h = tt
leave-IsDistinct c (x ∷ xs) h = ground (arith, leave-IsDistinct c xs, runs-leave c x xs)

pub length-leave :
    (c : ℕ) (cs : List ℕ) → IsDistinct cs → runs c cs ≡ true → length (leave c cs) + 1 ≡ length cs
unfolding runs leave
length-leave c [] d h = cc
length-leave c (x ∷ xs) d h = ground (arith, length-leave c xs, leave-same c xs)
