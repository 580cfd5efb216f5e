-- ===== src/Network/Transfer.antt =====
-- What either side has received is what the other has sent, as far as it was taken.
use rfrp.Base.{
  ℕ, suc, ◌+◌, ◌^◌, ◌≤◌, ◌<◌, ◌≡◌, refl, sym, ap, ◌∙◌, List, ◌++◌, some, arith, length, take, drop,
  get_elem?, get_elem?-lt, length-append, take-append_le, take-get_elem?, take_all,
  take-append-drop,
}
use mathlib.Core.Path.{ap₂}
use rfrp.Base.Dict.{Dict}
use rfrp.Config.{ClientInfo}
use rfrp.Frame.{RfrpFrame, skip_fields}
use rfrp.Pump.Reading.{payload_of, payloads}
use rfrp.Site
use rfrp.Site.{Site, sends, share}
use rfrp.Site.Received.{received}
use rfrp.Client.Site as ClientSite
use rfrp.Client.Site.Given as ClientGiven
use rfrp.Pump.Payloads.{payloads-snoc, payloads-append}
use rfrp.Streams.EndToEnd.{payload_of-skip_fields}
use rfrp.Network.{
  IsTask, IsClientTask, Run, registered, server_task, server_frame, client_task, client_frame,
}
use rfrp.Network.Growth.{Grows, Step-Grows, client-Grows}

-- The first payloads of a list are those of its first frames.
pub payloads-take :
    (p c i : ℕ) (fs : List RfrpFrame)
    → payloads p c fs ≡ payloads p c (take i fs) ++ payloads p c (drop i fs)
payloads-take p c i fs =
    ap (payloads p c) (sym (take-append-drop i fs)) ∙ payloads-append p c (take i fs) (drop i fs)

-- One more frame has been taken.
payloads-taken :
    (p c i : ℕ) (fs : List RfrpFrame) {f : RfrpFrame} {old : List (List ℕ)}
    → get_elem? fs i ≡ some f
    → old ≡ payloads p c (take i fs)
    → old ++ payload_of p c (skip_fields f) ≡ payloads p c (take (i + 1) fs)
payloads-taken p c i fs {f} at e =
    ap₂ (λ a b. a ++ b) e (payload_of-skip_fields p c f)
    ∙ sym (payloads-snoc p c (take i fs) f)
    ∙ ap (payloads p c) (sym (take-get_elem? i fs at))
    ∙ ap (λ n. payloads p c (take n fs)) {x = suc i} (omega arith)

payloads-grown :
    (p c i : ℕ) (before after : List RfrpFrame) {old : List (List ℕ)}
    → Grows before after
    → i ≤ length before
    → old ≡ payloads p c (take i before)
    → old ≡ payloads p c (take i after)
payloads-grown p c i before after (more, g) le e =
    e ∙ ap (payloads p c) (sym (take-append_le i before more le) ∙ ap (take i) (sym g))

length-grown : (before after : List RfrpFrame) → Grows before after → length before ≤ length after
length-grown before after (more, g) = omega (arith, ap length g, length-append before more)

task-received :
    (p c : ℕ) {n : ℕ} {x z : Site} (r : Site.Reach n x) (st : Site.Step x z)
    → IsTask st
    → received p c (Site.next r st) ≡ received p c r
task-received p c r (Site.framed rc f x s e) h = absurd h
task-received p c r (Site.began binds tx_open q t x e at) h = refl
task-received p c r (Site.served q st x at) h = refl

client_task-received :
    (p c : ℕ) {configs : Dict ClientInfo} {y z : ClientSite.Site} (s : ClientSite.Reach configs y)
    (st : ClientSite.Step y z)
    → IsClientTask st
    → ClientGiven.received p c (ClientSite.next s st) ≡ ClientGiven.received p c s
client_task-received p c s (ClientSite.framed accepts conn_open f x) h = absurd h
client_task-received p c s (ClientSite.read tx_open k q j bytes x g) h = refl
client_task-received p c s (ClientSite.closed k q j x g) h = refl
client_task-received p c s (ClientSite.pinged x) h = refl

-- Each side has received what the other has sent, as far as it has taken it.
pub record IsTransferred (configs : Dict ClientInfo) (p c : ℕ) (n : ℕ) (x : Site)
    (r : Site.Reach n x) (y : ClientSite.Site) (s : ClientSite.Reach configs y) (i j : ℕ)
    : Type 0 where
  pub by_client : ClientGiven.received p c s ≡ payloads p c (take i x.session.sent)
  pub by_server : received p c r ≡ payloads p c (take j y.sent)
  pub sent_by_server : i ≤ length x.session.sent
  pub sent_by_client : j ≤ length y.sent

pub Run-IsTransferred :
    (configs : Dict ClientInfo) (p c n : ℕ) (x : Site) (r : Site.Reach n x) (y : ClientSite.Site)
    (s : ClientSite.Reach configs y) (i j : ℕ)
    → n < 2 ^ 64
    → Run configs n x r y s i j
    → IsTransferred configs p c n x r y s i j
Run-IsTransferred configs p c n x r y s i j small (registered q quiet unsent) = record {
  by_client =
      sym (quiet p c)
      ∙ ap (payloads p c) (sym (take_all (length x.session.sent) x.session.sent (omega arith)));
  by_server = unsent p c;
  sent_by_server = omega arith;
  sent_by_client = omega arith;
}
Run-IsTransferred configs p c n x r y s i j small
      (server_task {n = m} {x = u} {r = q} st task run) =
    let v = Run-IsTransferred configs p c m u q y s i j (omega arith) run in
    let g = Step-Grows (omega arith) q st in
    record {
      by_client = payloads-grown p c i _ _ g v.sent_by_server v.by_client;
      by_server = task-received p c q st task ∙ v.by_server;
      sent_by_server =
          omega (arith, v.sent_by_server, length-grown u.session.sent x.session.sent g);
      sent_by_client = v.sent_by_client;
    }
Run-IsTransferred configs p c n x r y s i j small
      (server_frame {n = m} {x = u} {r = q} {j = k} rc f z e at run) =
    let v = Run-IsTransferred configs p c m u q y s i k (omega arith) run in
    let g = Step-Grows (omega arith) q (Site.framed rc (skip_fields f) u z e) in
    record {
      by_client = payloads-grown p c i _ _ g v.sent_by_server v.by_client;
      by_server = payloads-taken p c k y.sent at v.by_server;
      sent_by_server =
          omega (arith, v.sent_by_server, length-grown u.session.sent x.session.sent g);
      sent_by_client = omega (arith, get_elem?-lt y.sent k at);
    }
Run-IsTransferred configs p c n x r y s i j small (client_task {y = u} {s = q} st task run) =
    let v = Run-IsTransferred configs p c n x r u q i j small run in
    let g = client-Grows st in
    record {
      by_client = client_task-received p c q st task ∙ v.by_client;
      by_server = payloads-grown p c j _ _ g v.sent_by_client v.by_server;
      sent_by_server = v.sent_by_server;
      sent_by_client = omega (arith, v.sent_by_client, length-grown u.sent y.sent g);
    }
Run-IsTransferred configs p c n x r y s i j small
      (client_frame {y = u} {s = q} {i = k} accepts conn_open f at run) =
    let v = Run-IsTransferred configs p c n x r u q k j small run in
    let g = client-Grows (ClientSite.framed accepts conn_open (skip_fields f) u) in
    record {
      by_client = payloads-taken p c k x.session.sent at v.by_client;
      by_server = payloads-grown p c j _ _ g v.sent_by_client v.by_server;
      sent_by_server = omega (arith, get_elem?-lt x.session.sent k at);
      sent_by_client = omega (arith, v.sent_by_client, length-grown u.sent y.sent g);
    }
