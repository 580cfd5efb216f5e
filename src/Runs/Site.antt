-- ===== src/Runs/Site.antt =====
-- A server with one proxy, whose first connection has sent and been sent something.
use rfrp.Base.{some, get_elem?, ℕ, ◌≡◌, refl, arith, Bool, true, ◌||◌, [], ◌∷◌, ◌==◌, if◌then◌else◌}
use rfrp.Base.Bytes.{codes}
use rfrp.Frame.{register, new_data_frame}
use rfrp.Server.{
  ProxyTask, Receivers, goes_on, on_frame, on_register, on_data, find_routing, find_sender, deliver,
  on_task,
}
use rfrp.Server.Invariant.{session_of}
use rfrp.Site.Shares.{renamed}
use rfrp.Proxy.{
  Listener, listen, on_accept, on_permit, runs, handle_reg_frame, accepted, granted, read, on_read,
}
use rfrp.Proxy.Live.{is_some, awaits}
use rfrp.Site.{
  Site, listening, start, sender_of, share, sends, on_spawned, framed, began, served, Reach, here,
  next,
}
use rfrp.Site.Invariant.{IsJoined, Reach-IsJoined}
use rfrp.Site.Senders.{Reach-find_sender}
use rfrp.Site.Asked.{asked}
use rfrp.Site.Deliveries.{Reach-asked}
use rfrp.Streams.{stream}
use rfrp.Runs.Config.{entry}

abbrev pub all_open : Receivers
all_open = record { tx_open = true; conn_open = λ c. true }

abbrev pub any_port : ℕ → Bool
any_port p = true

abbrev pub web : ProxyTask
web = record { client_info = entry (codes "127.0.0.1"); routing = 0; proxy_id = 0 }

abbrev pub registered : Site
registered = record start {
  session = session_of (on_frame all_open (register (entry (codes "127.0.0.1"))) start.session);
}

abbrev pub bound : Site
bound = on_spawned any_port true web 0 registered

abbrev pub first_waits : Listener
first_waits = on_accept (listen 0)

abbrev pub accepting : Site
accepting = record {
  session = share 0 (accepted (listen 0) refl) bound.session;
  tasks = λ p. if p == 0 then listening first_waits else bound.tasks p;
}

abbrev pub first_runs : Listener
first_runs = on_permit 0 1023 first_waits

abbrev pub serving : Site
serving = record {
  session = accepting.session;
  tasks = λ p. if p == 0 then listening first_runs else accepting.tasks p;
}

abbrev pub answered : Site
answered = record serving {
  session = session_of (on_frame all_open (new_data_frame (codes "hi") 0 0) serving.session);
}

pub registered_frame :
    on_frame all_open (register (entry (codes "127.0.0.1"))) start.session
    ≡ goes_on registered.session
unfolding on_frame on_register
registered_frame = refl

abbrev pub registered-Reach : Reach 1 registered
registered-Reach = next here (
    framed all_open (register (entry (codes "127.0.0.1"))) start registered.session
      registered_frame)

pub web_spawned : get_elem? registered.session.proxy_tasks 0 ≡ some web
unfolding on_frame on_register
web_spawned = refl

abbrev pub bound-Reach : Reach 2 bound
bound-Reach = next registered-Reach (began any_port true 0 web registered web_spawned refl)

accepting-Reach : Reach 3 accepting
unfolding handle_reg_frame
accepting-Reach = next bound-Reach (served 0 (accepted (listen 0) refl) bound refl)

serving-Reach : Reach 4 serving
unfolding on_accept
serving-Reach =
    next accepting-Reach (served 0 (granted first_waits 0 1023 refl refl) accepting refl)

pub answered-Reach : Reach 5 answered
unfolding on_frame on_data new_data_frame
answered-Reach =
    next serving-Reach (framed all_open (new_data_frame (codes "hi") 0 0) serving _ refl)

abbrev pub read_from : Site
read_from = record {
  session = sends (new_data_frame (codes "hello") 0 0 ∷ []) answered.session;
  tasks = λ p.
      if p == 0 then listening (on_read true 0 (codes "hello") first_runs) else answered.tasks p;
}

pub read_from-Reach : Reach 6 read_from
unfolding on_accept on_permit runs
read_from-Reach =
    next answered-Reach (served 0 (read first_runs true 0 (codes "hello") refl) answered refl)

Reach-IsJoined_example : IsJoined 5 answered
Reach-IsJoined_example = Reach-IsJoined 5 (omega arith) answered-Reach

Reach-find_sender_example :
    let (routing, s) = find_routing 0 answered.session in
    let found = find_sender routing 0 s.tables in
    (found ≡ renamed 0 (first_runs.routing 0))
    × (is_some found ≡ runs 0 first_runs.readers || awaits first_runs.waiting 0)
Reach-find_sender_example =
    Reach-find_sender 5 0 0 answered first_runs (omega arith) answered-Reach refl

Reach-asked_example : stream (sender_of 0 0) answered.session.delivered ≡ asked 0 0 answered-Reach
unfolding on_accept on_permit
Reach-asked_example = Reach-asked 5 0 0 0 answered first_runs answered-Reach (omega arith) refl refl

hi_taken : stream (sender_of 0 0) answered.session.delivered ≡ codes "hi" ∷ []
unfolding on_frame on_register on_data find_routing find_sender deliver on_task new_data_frame
    on_accept handle_reg_frame
hi_taken = refl
