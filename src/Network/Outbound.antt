-- ===== src/Network/Outbound.antt =====
-- From the internal services to the external connections, while everything runs.
use rfrp.Base.{
  ℕ, ◌^◌, ◌≤◌, ◌<◌, ◌≡◌, refl, sym, ap, ◌∙◌, inl, inr, [], ◌++◌, some, arith, ◌==◌, drop,
}
use mathlib.Core.Path.{ap₂}
use rfrp.Base.Dict.{Dict}
use rfrp.Config.{ClientInfo}
use rfrp.Pump.Reading.{payloads}
use rfrp.Proxy.{Listener}
use rfrp.Site
use rfrp.Site.{Site, TaskState, listening, sender_of}
use rfrp.Site.Asked.{asked, accepts, accepts-next, served-routing}
use rfrp.Site.Invariant.{Reach-IsJoined}
use rfrp.Site.Senders.{joined-IsSoleSender}
use rfrp.Site.Deliveries.{began-routing, write_behind, Reach-asked}
use rfrp.Site.Received.{IsOpen, asked-unreceived, received, next_of, chunks_read-unaccepted}
use rfrp.Site.Reads.{Reach-chunks_read}
use rfrp.Client.Site as ClientSite
use rfrp.Client.Site.Reads as ClientReads
use rfrp.Client.Site.Prompted.{chunks_read-unprompted}
use rfrp.Streams.{stream}
use rfrp.Pump.Payloads.{append-eq-nil}
use rfrp.Network.{Run, registered, server_task, server_frame, client_task, client_frame}
use rfrp.Network.Transfer.{payloads-take, Run-IsTransferred}

-- A connection that no listener has accepted yet gets no payload from the client, at every moment of
-- every run: connection ids come from the server only. The server makes fewer than 2^64 steps.
pub Run-unaccepted :
    (configs : Dict ClientInfo) (p c : ℕ) (n : ℕ) (x : Site) (r : Site.Reach n x)
    (y : ClientSite.Site) (s : ClientSite.Reach configs y) (i j : ℕ)
    → n < 2 ^ 64
    → Run configs n x r y s i j
    → next_of (x.tasks p) ≤ c
    → payloads p c y.sent ≡ []
Run-unaccepted configs p c n x r y s i j small run h =
    let v = Run-IsTransferred configs p c n x r y s i j small run in
    let (taken, left) = append-eq-nil _ _ (
      sym (payloads-take p c i x.session.sent)
      ∙ Reach-chunks_read n p c x r small
      ∙ chunks_read-unaccepted n p c x r small h) in
    ClientReads.Reach-chunks_read configs p c y s
    ∙ chunks_read-unprompted configs p c y s (v.by_client ∙ taken)

received-unaccepted :
    (configs : Dict ClientInfo) (p c : ℕ) (n : ℕ) (x : Site) (r : Site.Reach n x)
    (y : ClientSite.Site) (s : ClientSite.Reach configs y) (i j : ℕ)
    → n < 2 ^ 64
    → Run configs n x r y s i j
    → next_of (x.tasks p) ≤ c
    → received p c r ≡ []
received-unaccepted configs p c n x r y s i j small run h =
    let v = Run-IsTransferred configs p c n x r y s i j small run in
    v.by_server
    ∙ (append-eq-nil _ _
        (sym (payloads-take p c j y.sent) ∙ Run-unaccepted configs p c n x r y s i j small run h)).0

asked-received :
    (configs : Dict ClientInfo) (p c : ℕ) (n : ℕ) (x : Site) (r : Site.Reach n x)
    (y : ClientSite.Site) (s : ClientSite.Reach configs y) (i j : ℕ)
    → n < 2 ^ 64
    → Run configs n x r y s i j
    → IsOpen r
    → (l : Listener) (k : ℕ) → x.tasks p ≡ listening l
    → l.routing c ≡ some k
    → asked p c r ≡ received p c r
asked-received configs p c n x r y s i j small (registered q quiet unsent) open_ l k at entry =
    asked-unreceived p c r (unsent p c) ∙ sym (unsent p c)
asked-received configs p c n x r y s i j small
      (server_task {n = m} {x = u} {r = q} (Site.framed rc f v z e) task run) open_ l k at entry =
    absurd task
asked-received configs p c n x r y s i j small
      (server_task {n = m} {x = u} {r = q} (Site.began binds tx_open a t v e free) task run) open_ l
      k at entry =
    asked-received configs p c m u q y s i j (omega arith) run open_ l k
      (write_behind (p == a) (λ h. began-routing binds tx_open t _ refl h entry) at) entry
asked-received configs p c n x r y s i j small
      (server_task {n = m} {x = u} {r = q} (Site.served a {l = from} st v own) task run) open_ l k
      at entry =
    elim (served-routing p a c k st (p == a) (u.tasks p) (λ h. ground arith) (λ h. ground arith)
      (λ h. ground arith) l at entry) [
        | inl new ↦
            let (same, first) = accepts-next p c a st new in
            rw new (
              sym (
                received-unaccepted configs p c m u q y s i j (omega arith) run
                  (omega (arith, ap next_of own, ap (λ b. next_of (u.tasks b)) same))))
        | inr (old, (z, now, kept)) ↦
            rw old (asked-received configs p c m u q y s i j (omega arith) run open_ z k now kept)
      ]
asked-received configs p c n x r y s i j small
      (server_frame {n = m} {x = u} {r = q} {j = b} rc f z e got run) (open_, all) l k at entry =
    let v = Reach-IsJoined m (omega arith) q in
    let (routed, sole) = joined-IsSoleSender v p c k l at entry in
    ap₂ (λ old new. old ++ new)
      (asked-received configs p c m u q y s i b (omega arith) run open_ l k at entry)
      (rw (routed, all (sender_of p k)) refl)
asked-received configs p c n x r y s i j small (client_task {y = u} {s = q} st task run) open_ l k
      at entry =
    asked-received configs p c n x r u q i j small run open_ l k at entry
asked-received configs p c n x r y s i j small
      (client_frame {y = u} {s = q} {i = a} accepts conn_open f got run) open_ l k at entry =
    asked-received configs p c n x r u q a j small run open_ l k at entry

-- At every moment of every run: what the sender of an external connection has taken, with what is still
-- under way behind it, is what was read for that connection from the internal services since the run
-- began, in order: nothing is lost, doubled or taken from another connection. The connection is in its
-- listener's table, no sender's receiver was gone when a frame came, and the server makes fewer than
-- 2^64 steps.
pub Run-outbound :
    (configs : Dict ClientInfo) (p c k n : ℕ) (x : Site) (l : Listener) (r : Site.Reach n x)
    (y : ClientSite.Site) (s : ClientSite.Reach configs y) (i j : ℕ)
    → n < 2 ^ 64
    → Run configs n x r y s i j
    → IsOpen r
    → x.tasks p ≡ listening l
    → l.routing c ≡ some k
    → ClientReads.chunks_read p c s
      ≡ stream (sender_of p k) x.session.delivered ++ payloads p c (drop j y.sent)
Run-outbound configs p c k n x l r y s i j small run open_ at entry =
    let v = Run-IsTransferred configs p c n x r y s i j small run in
    sym (ClientReads.Reach-chunks_read configs p c y s)
    ∙ payloads-take p c j y.sent
    ∙ ap (λ t. t ++ payloads p c (drop j y.sent))
        (sym v.by_server
          ∙ sym (asked-received configs p c n x r y s i j small run open_ l k at entry)
          ∙ sym (Reach-asked n p c k x l r small at entry))
