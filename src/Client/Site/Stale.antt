-- ===== src/Client/Site/Stale.antt =====
-- What the end of a read task does to a later connection with the same id.
use rfrp.Base.{ℕ, ◌≡◌, ◌≢◌, true, none, some, ◌∙◌, arith}
use rfrp.Base.Dict.{Dict}
use rfrp.Config.{ClientInfo}
use rfrp.Client.Site.{Site, reads_for, on_end, Reach}
use rfrp.Client.Site.Readers.{reads_for-leave}
use rfrp.Client.Site.Invariant.{tunnel_of, Reach-IsTied, on_end-IsTied}
use rfrp.Client.Site.Given.{link_of, Reach-link}

-- In every state that the client can come to: when the client has dropped a connection whose write task
-- was gone and opened another one under the same id, the end of the first one's read task removes the
-- sender of the second, whose own read task goes on.
pub on_end-stale :
    (configs : Dict ClientInfo) (p c k old : ℕ) (x : Site)
    → Reach configs x
    → link_of x.session p c ≡ some k
    → reads_for old p c x.readers ≡ true
    → old ≢ k
    → (link_of (on_end old p c x).session p c ≡ none)
      × (reads_for k p c (on_end old p c x).readers ≡ true)
unfolding on_end
on_end-stale configs p c k old x r h g other =
    let v = on_end-IsTied old p c x (tunnel_of r) g (Reach-IsTied r) in
    let (runs, sole) = Reach-link configs p c k x r h in
    (v.mirrors.links p c ∙ ground arith, ground (arith, reads_for-leave k p c old x.readers))
