-- ===== src/Runs/Client.antt =====
-- A session of a client, the delays of its attempts, and the theorems on them.
use rfrp.Base.{◌≡◌, refl, arith, true, List, [], ◌∷◌, none}
use rfrp.Base.Dict.{Dict, empty, insert}
use rfrp.Base.Bytes.{codes}
use rfrp.Config.{ClientInfo}
use rfrp.Frame.{RfrpFrame, new_data_frame}
use rfrp.Client.{
  World, start, on_frame, on_data, find_conns, get_or_create_internal_conn, enter_conn,
  on_read_ends, on_read_end, forward,
}
use rfrp.Client.Tunnel.{Tunnel, relay}
use rfrp.Client.Mirrors.{Mirrors}
use rfrp.Client.Links.{on_frame-Mirrors, start-Mirrors}
use rfrp.Client.Loop.{Event, payload, closed}
use rfrp.Client.Reconnect.{
  Attempt, refused, session_lost, reconnect_delays, calc_reconnect_delay, saturating_mul,
  saturating_pow_two, backoff, reconnect_delays-backoff,
}
use rfrp.Runs.Config.{entry}

-- Every service accepts, and the connection 3 of the proxy 0 ends meanwhile.
abbrev all_accept : World
all_accept = record { accepts = λ a. true; ended = (0, 3) ∷ []; conn_open = λ c. true }

abbrev one_config : Dict ClientInfo
one_config = insert 0 (entry (codes "127.0.0.1")) empty

abbrev idle_tunnel : Tunnel
idle_tunnel = record {
  configs = one_config;
  link = λ p c. none;
  made = 0;
  connections = [];
  passed = [];
}

abbrev data_for_7 : RfrpFrame
data_for_7 = new_data_frame (codes "hello") 0 7

on_frame-Mirrors_example :
    Mirrors
      (on_frame all_accept data_for_7 (start one_config))
      (relay all_accept data_for_7 idle_tunnel)
on_frame-Mirrors_example =
    on_frame-Mirrors all_accept data_for_7 (start one_config) idle_tunnel (start-Mirrors one_config)

passed_to_first :
    (on_frame all_accept data_for_7 (start one_config)).forwarded ≡ (0, codes "hello") ∷ []
unfolding on_frame on_data find_conns get_or_create_internal_conn enter_conn on_read_ends
    on_read_end forward new_data_frame
passed_to_first = refl

abbrev outcomes : List Attempt
outcomes = refused ∷ refused ∷ session_lost ∷ refused ∷ refused ∷ refused ∷ refused ∷ []

delays_grow : reconnect_delays 0 outcomes ≡ 3 ∷ 6 ∷ 12 ∷ 24 ∷ 48 ∷ 60 ∷ 60 ∷ []
unfolding reconnect_delays calc_reconnect_delay saturating_mul saturating_pow_two
delays_grow = refl

reconnect_delays-backoff_example : reconnect_delays 0 outcomes ≡ backoff 0 7
reconnect_delays-backoff_example = reconnect_delays-backoff 0 outcomes (omega arith)

abbrev events : List Event
events = payload all_accept (codes "no frame, but long enough to be read") ∷ closed ∷ []
