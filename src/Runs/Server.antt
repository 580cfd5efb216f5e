-- ===== src/Runs/Server.antt =====
-- A session of a server, and the theorems on it.
use rfrp.Base.{◌≡◌, refl, true, List, [], ◌∷◌, none, some}
use rfrp.Base.Bytes.{codes}
use rfrp.Frame.{RfrpFrame, register, new_data_frame}
use rfrp.Server.{Session, Receivers, start, on_register, on_frame, on_task, on_data, find_sender}
use rfrp.Server.Loop.{Event, payload, closed, task_write}
use rfrp.Server.Invariant.{
  IsCoherent, start-IsCoherent, session_of, on_frame-IsCoherent, on_task-IsCoherent,
}
use rfrp.Server.Service.{Service, Provides, route, serve, reroute}
use rfrp.Server.Routes.{on_frame-Provides}
use rfrp.Server.Tasks.{on_task-Provides}
use rfrp.Runs.Config.{entry}

abbrev all_open : Receivers
all_open = record { tx_open = true; conn_open = λ c. true }

abbrev registration : RfrpFrame
registration = register (entry (codes "127.0.0.1"))

-- A session with one proxy, whose connection 7 has the sender 42.
abbrev pub one_proxy : Session
one_proxy = on_task 0 7 (some 42) (session_of (on_frame all_open registration start))

abbrev idle_service : Service
idle_service = record { proxies = 0; route = λ p c. none; replies = []; handed = [] }

abbrev one_service : Service
one_service = reroute 0 7 (some 42) (serve all_open registration idle_service)

start-Provides : Provides start idle_service
unfolding route find_sender
start-Provides = record { proxies = refl; routes = λ p c. refl; replies = refl; handed = refl }

pub one_proxy-IsCoherent : IsCoherent one_proxy
one_proxy-IsCoherent =
    on_task-IsCoherent 0 7 (some 42) _
      (on_frame-IsCoherent all_open registration start start-IsCoherent)

registered-Provides :
    Provides
      (session_of (on_frame all_open registration start))
      (serve all_open registration idle_service)
registered-Provides =
    on_frame-Provides all_open registration start idle_service start-IsCoherent start-Provides

one_proxy-Provides : Provides one_proxy one_service
one_proxy-Provides =
    on_task-Provides 0 7 (some 42) _ _
      (on_frame-IsCoherent all_open registration start start-IsCoherent) registered-Provides

abbrev some_data : RfrpFrame
some_data = new_data_frame (codes "hello") 0 7

on_frame-Provides_example :
    Provides
      (session_of (on_frame all_open some_data one_proxy))
      (serve all_open some_data one_service)
on_frame-Provides_example =
    on_frame-Provides all_open some_data one_proxy one_service one_proxy-IsCoherent
      one_proxy-Provides

delivered_to_42 :
    (session_of (on_frame all_open some_data one_proxy)).delivered ≡ (42, codes "hello") ∷ []
unfolding on_frame on_register on_task on_data new_data_frame
delivered_to_42 = refl

abbrev events : List Event
events = task_write 0 7 (some 42) ∷ payload all_open (codes "no frame") ∷ closed ∷ []
