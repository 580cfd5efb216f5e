-- ===== src/Runs/Network.antt =====
-- Both sides at work: a connection is accepted, its payload opens one to the service, and the answer
-- comes back.
use rfrp.Base.{ℕ, ◌+◌, ◌≡◌, refl, arith, true, [], ◌++◌, some, drop}
use rfrp.Base.Bytes.{codes}
use rfrp.Base.Dict.{write_at}
use rfrp.Frame.{RfrpFrame, new_data_frame, new_reg_ack_frame, skip_fields}
use rfrp.Pump.Reading.{payloads}
use rfrp.Server
use rfrp.Server.{
  Session, on_frame, on_register, on_data, find_routing, find_sender, deliver, on_task,
}
use rfrp.Server.Invariant.{session_of}
use rfrp.Proxy
use rfrp.Proxy.{Listener, listen, on_accept, on_permit, runs, handle_reg_frame, send}
use rfrp.Site
use rfrp.Site.{Site, listening, sender_of, sends}
use rfrp.Site.Received.{received}
use rfrp.Site.Reads.{chunks_read}
use rfrp.Client
use rfrp.Client.Mirrors.{link_in}
use rfrp.Client.Site as ClientSite
use rfrp.Client.Site.Reads as ClientReads
use rfrp.Streams.{stream}
use rfrp.Network.{Run, registered, server_task, server_frame, client_task, client_frame}
use rfrp.Client.Site.Given.{earlier}
use rfrp.Network.Inbound.{Run-inbound}
use rfrp.Network.Outbound.{Run-unaccepted, Run-outbound}
use rfrp.Runs.Config.{entry}
use rfrp.Runs.Site.{all_open, bound, bound-Reach, first_waits, accepting, first_runs, serving}
use rfrp.Runs.ClientSite.{configs, all_accept, none_gone, hello}

pub bound-listens : bound.tasks 0 ≡ listening (listen 0)
unfolding handle_reg_frame
bound-listens = refl

abbrev pub accept_step : Site.Step bound accepting
accept_step = Site.served 0 (Proxy.accepted (listen 0) refl) bound bound-listens

pub waits : first_waits.waiting ≡ some 0
unfolding on_accept
waits = refl

pub permits : first_waits.permits ≡ 1023 + 1
unfolding on_accept
permits = refl

abbrev pub grant_step : Site.Step accepting serving
grant_step = Site.served 0 (Proxy.granted first_waits 0 1023 waits permits) accepting refl

pub runs_first : runs 0 first_runs.readers ≡ true
unfolding on_permit runs
runs_first = refl

abbrev pub asking : Site
asking = record {
  session = Site.share 0 (Proxy.read first_runs true 0 (codes "hello") runs_first) serving.session;
  tasks = write_at 0 (listening (Proxy.on_read true 0 (codes "hello") first_runs)) serving.tasks;
}

abbrev pub read_step : Site.Step serving asking
read_step = Site.served 0 (Proxy.read first_runs true 0 (codes "hello") runs_first) serving refl

abbrev pub asking-Reach : Site.Reach 5 asking
asking-Reach = Site.next (Site.next (Site.next bound-Reach accept_step) grant_step) read_step

pub quiet : (p c : ℕ) → payloads p c bound.session.sent ≡ []
unfolding handle_reg_frame send new_reg_ack_frame on_frame on_register
quiet p c = refl

pub unsent : (p c : ℕ) → received p c bound-Reach ≡ []
unsent p c = refl

abbrev pub fed : ClientSite.Site
fed =
    ClientSite.on_frame_spawned all_accept none_gone (skip_fields hello) (ClientSite.start configs)

pub fed_reads : ClientSite.reads_for 0 0 0 fed.readers ≡ true
unfolding ClientSite.on_frame_spawned skip_fields new_data_frame Client.on_frame Client.on_data
    ClientSite.reads_for
fed_reads = refl

abbrev pub answering : ClientSite.Site
answering = ClientSite.on_read true 0 0 0 (codes "hi") fed

abbrev pub answer_step : ClientSite.Step fed answering
answer_step = ClientSite.read true 0 0 0 (codes "hi") fed fed_reads

abbrev pub fed-Reach : ClientSite.Reach configs fed
fed-Reach =
    ClientSite.next ClientSite.here
      (ClientSite.framed all_accept none_gone (skip_fields hello) (ClientSite.start configs))

abbrev pub answering-Reach : ClientSite.Reach configs answering
answering-Reach = ClientSite.next fed-Reach answer_step

abbrev pub answer : RfrpFrame
answer = new_data_frame (codes "hi") 0 0

abbrev answered : Session
answered = session_of (on_frame all_open (skip_fields answer) asking.session)

answered_frame : on_frame all_open (skip_fields answer) asking.session ≡ Server.goes_on answered
unfolding on_frame on_data new_data_frame skip_fields
answered_frame = refl

abbrev answered-Reach : Site.Reach 6 (record asking { session = answered })
answered-Reach =
    Site.next asking-Reach
      (Site.framed all_open (skip_fields answer) asking answered answered_frame)

asking-Run : Run configs 5 asking asking-Reach fed fed-Reach 2 0
unfolding handle_reg_frame send on_frame on_register Proxy.on_read new_data_frame on_permit
    on_accept on_task
asking-Run = client_frame all_accept none_gone hello refl (
    server_task read_step tt (
      server_task grant_step tt (server_task accept_step tt (registered bound-Reach quiet unsent))))

answered-Run :
    Run configs 6
      (record asking { session = answered })
      answered-Reach
      answering
      answering-Reach
      2
      1
unfolding ClientSite.on_read ClientSite.on_frame_spawned
answered-Run =
    server_frame all_open answer answered answered_frame refl
      (client_task answer_step tt asking-Run)

Run-inbound_example :
    chunks_read 0 0 asking-Reach
    ≡ (earlier 0 0 fed-Reach ++ stream 0 fed.session.forwarded)
      ++ payloads 0 0 (drop 2 asking.session.sent)
unfolding ClientSite.on_frame_spawned skip_fields new_data_frame Client.on_frame Client.on_data
    link_in
Run-inbound_example =
    Run-inbound configs 0 0 0 (entry (codes "127.0.0.1")) 5 asking asking-Reach fed fed-Reach 2 0
      (omega arith) asking-Run refl refl

Run-unaccepted_example : payloads 0 1 answering.sent ≡ []
unfolding on_accept on_permit Proxy.on_read
Run-unaccepted_example =
    Run-unaccepted configs 0 1 6 (record asking { session = answered }) answered-Reach answering
      answering-Reach 2 1 (omega arith) answered-Run (omega arith)

Run-outbound_example :
    ClientReads.chunks_read 0 0 answering-Reach
    ≡ stream (sender_of 0 0) answered.delivered ++ payloads 0 0 (drop 1 answering.sent)
unfolding on_accept on_permit Proxy.on_read
Run-outbound_example =
    Run-outbound configs 0 0 0 6 (record asking { session = answered })
      (Proxy.on_read true 0 (codes "hello") first_runs) answered-Reach answering answering-Reach 2 1
      (omega arith) answered-Run ((tt, λ k. refl), λ k. refl) refl refl
