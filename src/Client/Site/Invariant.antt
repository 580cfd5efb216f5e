-- ===== src/Client/Site/Invariant.antt =====
-- The client's session, its tunnel and its read tasks, in every interleaving.
use rfrp.Base.{ℕ, ◌≡◌, refl, sym, Bool, true, false, List, ◌++◌, none, length, drop}
use mathlib.Core.Path.{subst, ap₂}
use rfrp.Base.Dict.{Dict}
use rfrp.Config.{Text, ClientInfo}
use rfrp.Frame.{RfrpFrame}
use rfrp.Client.{ConnSender, InternalConn}
use rfrp.Client.Tunnel.{Tunnel, start_tunnel, set_link, relay}
use rfrp.Client.Mirrors.{Mirrors, on_read_end-Mirrors}
use rfrp.Client.Links.{on_frame-Mirrors, start-Mirrors}
use rfrp.Client.Site.{
  Site, start, reads_for, meanwhile, on_frame_spawned, on_end, on_read, sends, Step, framed, read,
  closed, pinged, Reach, here, next,
}
use rfrp.Client.Site.Owned.{IsOwned, relay-IsOwned, end-IsOwned}
use rfrp.Client.Site.Streamed.{IsUnused, relay-IsUnused}

-- What a step asks of the tunnel.
abbrev pub moved : {x y : Site} → Step x y → Tunnel → Tunnel
moved (framed accepts conn_open f x) t = relay (meanwhile accepts conn_open) f t
moved (read true k p c bytes x h) t = t
moved (read false k p c bytes x h) t = set_link p c none t
moved (closed k p c x h) t = set_link p c none t
moved (pinged x) t = t

-- The tunnel that the session stands for.
abbrev pub tunnel_of : {configs : Dict ClientInfo} {x : Site} → Reach configs x → Tunnel
tunnel_of {configs} here = start_tunnel configs
tunnel_of (next r st) = moved st (tunnel_of r)

-- The session stands for the tunnel, whose links the read tasks own.
pub record IsTied (x : Site) (t : Tunnel) : Type 0 where
  pub mirrors : Mirrors x.session t
  pub owned : IsOwned t x.readers
  pub unused : IsUnused t

start-IsTied : (configs : Dict ClientInfo) → IsTied (start configs) (start_tunnel configs)
unfolding reads_for
start-IsTied configs = record {
  mirrors = start-Mirrors configs;
  owned = record { linked = λ p c k h. cc; made = λ p c k h. cc; single = λ p c q j k h g. cc };
  unused = λ k below. refl;
}

framed-IsTied :
    (accepts : Text → Bool) (conn_open : ConnSender → Bool) (f : RfrpFrame) (x : Site) (t : Tunnel)
    → IsTied x t
    → IsTied (on_frame_spawned accepts conn_open f x) (relay (meanwhile accepts conn_open) f t)
unfolding on_frame_spawned
framed-IsTied accepts conn_open f x t v =
    let m = on_frame-Mirrors (meanwhile accepts conn_open) f x.session t v.mirrors in
    record {
      mirrors = m;
      owned =
          subst (λ rs. IsOwned (relay (meanwhile accepts conn_open) f t) (x.readers ++ rs))
            (ap₂ (λ (before after : List InternalConn). drop (length before) after)
              (sym v.mirrors.connections) (sym m.connections))
            (relay-IsOwned accepts conn_open f t x.readers v.owned);
      unused = relay-IsUnused accepts conn_open f t x.readers v.owned v.unused;
    }

pub on_end-IsTied :
    (k p c : ℕ) (x : Site) (t : Tunnel)
    → reads_for k p c x.readers ≡ true
    → IsTied x t
    → IsTied (on_end k p c x) (set_link p c none t)
unfolding on_end
on_end-IsTied k p c x t h v = record {
  mirrors = on_read_end-Mirrors v.mirrors p c;
  owned = end-IsOwned v.owned k p c h;
  unused = v.unused;
}

sends-IsTied : (f : RfrpFrame) (x : Site) (t : Tunnel) → IsTied x t → IsTied (sends f x) t
sends-IsTied f x t v = record { mirrors = v.mirrors; owned = v.owned; unused = v.unused }

Step-IsTied : {x y : Site} (st : Step x y) (t : Tunnel) → IsTied x t → IsTied y (moved st t)
unfolding on_read
Step-IsTied (framed accepts conn_open f x) t v = framed-IsTied accepts conn_open f x t v
Step-IsTied (read true k p c bytes x h) t v = sends-IsTied _ x t v
Step-IsTied (read false k p c bytes x h) t v = on_end-IsTied k p c x t h v
Step-IsTied (closed k p c x h) t v = on_end-IsTied k p c x t h v
Step-IsTied (pinged x) t v = sends-IsTied _ x t v

pub Reach-IsTied :
    {configs : Dict ClientInfo} {x : Site} (r : Reach configs x) → IsTied x (tunnel_of r)
Reach-IsTied {configs} here = start-IsTied configs
Reach-IsTied (next r st) = Step-IsTied st (tunnel_of r) (Reach-IsTied r)
