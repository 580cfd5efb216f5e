-- ===== src/Pump/Payloads.antt =====
-- The payloads of lists of frames that are put together.
use rfrp.Base.{ℕ, ◌≡◌, refl, ap, ◌∙◌, sym, List, [], ◌∷◌, ◌++◌}
use mathlib.Core.List.{append_assoc, append-nil}
use rfrp.Frame.{RfrpFrame}
use rfrp.Pump.Reading.{payload_of, payloads}

-- An append is empty when both parts are.
pub append-eq-nil : {A : Type 0} (xs ys : List A) → xs ++ ys ≡ [] → (xs ≡ []) × (ys ≡ [])
append-eq-nil [] ys h = (refl, h)
append-eq-nil (x ∷ xs) ys h = cc

pub payloads-snoc :
    (p c : ℕ) (fs : List RfrpFrame) (f : RfrpFrame)
    → payloads p c (fs ++ (f ∷ [])) ≡ payloads p c fs ++ payload_of p c f
payloads-snoc p c [] f = append-nil (payload_of p c f)
payloads-snoc p c (g ∷ fs) f =
    ap (λ l. payload_of p c g ++ l) (payloads-snoc p c fs f)
    ∙ sym (append_assoc (payload_of p c g) (payloads p c fs) (payload_of p c f))

pub payloads-append :
    (p c : ℕ) (fs gs : List RfrpFrame)
    → payloads p c (fs ++ gs) ≡ payloads p c fs ++ payloads p c gs
payloads-append p c [] gs = refl
payloads-append p c (f ∷ fs) gs =
    ap (λ l. payload_of p c f ++ l) (payloads-append p c fs gs)
    ∙ sym (append_assoc (payload_of p c f) (payloads p c fs) (payloads p c gs))
