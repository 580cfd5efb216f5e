-- ===== src/Network/Inbound.antt =====
-- From the external connections to the internal services, while everything runs.
use rfrp.Base.{ℕ, ◌^◌, ◌<◌, ◌≡◌, sym, ap, ◌∙◌, ◌++◌, some, drop}
use rfrp.Base.Dict.{Dict}
use rfrp.Config.{ClientInfo}
use rfrp.Pump.Reading.{payloads}
use rfrp.Site
use rfrp.Site.{Site}
use rfrp.Site.Reads.{chunks_read, Reach-chunks_read}
use rfrp.Client.Site as ClientSite
use rfrp.Client.Site.Given.{link_of, earlier, given-received, Reach-given}
use rfrp.Streams.{stream}
use rfrp.Network.{Run}
use rfrp.Network.Transfer.{payloads-take, Run-IsTransferred}

-- At every moment of every run, whatever fails: what was read from an external connection is, in order,
-- what had come to the client when a frame last found no sender for the connection, then what the sender
-- that the client has for it now has taken, and then what is still under way. So between the first
-- payload of the client's present connection to the internal service and the last that was read nothing
-- is lost, doubled or taken from another connection. The server makes fewer than 2^64 steps, and the
-- proxy is registered.
pub Run-inbound :
    (configs : Dict ClientInfo) (p c k : ℕ) (info : ClientInfo) (n : ℕ) (x : Site)
    (r : Site.Reach n x) (y : ClientSite.Site) (s : ClientSite.Reach configs y) (i j : ℕ)
    → n < 2 ^ 64
    → Run configs n x r y s i j
    → configs p ≡ some info
    → link_of y.session p c ≡ some k
    → chunks_read p c r
      ≡ (earlier p c s ++ stream k y.session.forwarded) ++ payloads p c (drop i x.session.sent)
Run-inbound configs p c k info n x r y s i j small run known at =
    let v = Run-IsTransferred configs p c n x r y s i j small run in
    sym (Reach-chunks_read n p c x r small)
    ∙ payloads-take p c i x.session.sent
    ∙ ap (λ l. l ++ payloads p c (drop i x.session.sent))
        (sym v.by_client
          ∙ given-received p c s
          ∙ ap (λ l. earlier p c s ++ l) (sym (Reach-given configs p c k info y s known at)))
