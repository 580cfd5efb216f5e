-- ===== src/Client/Site/Readers.antt =====
-- Which read tasks run.
use rfrp.Base.{ℕ, ◌≡◌, refl, false, ◌||◌, List, [], ◌∷◌, ◌++◌, arith, ◌==◌, if◌then◌else◌}
use rfrp.Client.{InternalConn}
use rfrp.Client.Site.{reads_for, leave}

pub reads_for-append :
    (k p c : ℕ) (rs ts : List InternalConn)
    → reads_for k p c (rs ++ ts) ≡ reads_for k p c rs || reads_for k p c ts
unfolding reads_for
reads_for-append k p c [] ts = refl
reads_for-append k p c (r ∷ rs) ts = ground (arith, reads_for-append k p c rs ts)

pub reads_for-leave :
    (k p c j : ℕ) (rs : List InternalConn)
    → reads_for k p c (leave j rs) ≡ (if k == j then false else reads_for k p c rs)
unfolding reads_for leave
reads_for-leave k p c j [] = ground arith
reads_for-leave k p c j (r ∷ rs) = ground (arith, reads_for-leave k p c j rs)
