-- ===== src/Runs/Wired.antt =====
-- A payload on the wire between both sides, and the theorems on it.
use mathlib.Core.Path.{subst}
use rfrp.Base.{true, some_inj, ℕ, ◌+◌, ◌≡◌, refl, sym, arith, [], ◌∷◌, length, zero, suc}
use rfrp.Frame.{RfrpFrame, new_data_frame, new_reg_ack_frame}
use rfrp.Crypto.{Cipher}
use rfrp.Compress.{returns}
use rfrp.Server.{on_frame, on_register, on_task}
use rfrp.Proxy
use rfrp.Proxy.{handle_reg_frame, send, on_permit, on_accept}
use rfrp.Site.Reads.{chunks_read}
use rfrp.Client.Site as ClientSite
use rfrp.Client.Site.Given as ClientGiven
use rfrp.Network.Line.{Line, write_round}
use rfrp.Network.Carried.{IsSlim, IsCarrying}
use rfrp.Network.Rounds.{write_round-goes_on, read_round-next}
use rfrp.Network.Wired.{Wired, connected, server_worked, server_wrote}
use rfrp.Network.Refined.{Slim, Slim-Fit, Refines, Wired-Refines}
use rfrp.Base.{List, some, ◌∙◌, ◌<◌, ◌^◌}
use rfrp.Base.Bytes.{codes}
use rfrp.Site
use rfrp.Base.Result.{ok}
use rfrp.Frame.{skip_fields}
use rfrp.Site.{Site, sender_of}
use rfrp.Client.Site.Reads as ClientReads
use rfrp.Streams.{stream}
use rfrp.Network.Line.{read_round}
use rfrp.Network.Wired.{client_worked, client_read}
use rfrp.Network.Upward.{GoesUp, Wired-returns}
use rfrp.Runs.Site.{first_runs}
use rfrp.Runs.Network.{answering, answering-Reach, answer_step}
use rfrp.Network.Drained.{Delivers, Flows, Wired-Flows, Wired-delivers}
use rfrp.Runs.StandIns.{crates, crates-AreCrates}
use rfrp.Runs.Crypto.{client_cipher, server_cipher, client_cipher-IsCipher, used}
use rfrp.Runs.Site.{bound, web, bound-Reach}
use rfrp.Runs.ClientSite.{configs, all_accept, none_gone, hello}
use rfrp.Runs.Network.{accept_step, grant_step, read_step, asking, asking-Reach, quiet, unsent}

abbrev line_from : Cipher → Cipher → ℕ → Line crates
line_from writer reader n = record {
  cipher = writer;
  encode_buf = [];
  compress = used;
  wrote = n;
  wire = [];
  reader = reader;
  decomp_buf = [];
  decompress = used;
}

abbrev down : Line crates
down = line_from client_cipher server_cipher (length bound.session.sent)

abbrev up : Line crates
up = line_from client_cipher server_cipher 0

asking-Wired :
    Wired crates configs 5 asking asking-Reach (ClientSite.start configs) ClientSite.here down up
asking-Wired = server_worked read_step tt (
    server_worked grant_step tt (
      server_worked accept_step tt (
        connected bound-Reach down up quiet unsent (refl, refl, client_cipher-IsCipher, refl)
          (refl, refl, client_cipher-IsCipher, refl))))

abbrev ack : RfrpFrame
ack = new_reg_ack_frame web.client_info true 0

asking_sent : asking.session.sent ≡ ack ∷ hello ∷ []
unfolding on_frame on_register handle_reg_frame send new_reg_ack_frame Proxy.on_read new_data_frame
    on_permit on_accept on_task
asking_sent = refl

two-Slim : Slim crates (ack ∷ hello ∷ [])
unfolding new_reg_ack_frame new_data_frame
two-Slim zero f at = subst (IsSlim crates) (some_inj at) (_, refl, omega arith)
two-Slim (suc zero) f at = subst (IsSlim crates) (some_inj at) (_, refl, omega arith)
two-Slim (suc (suc i)) f at = cc

asking-Slim : Slim crates asking.session.sent
asking-Slim = subst (Slim crates) (sym asking_sent) two-Slim

-- The write task is given the frame of the payload.
hello_writes :
    (m : Line crates) × (write_round crates true hello down ≡ returns (some m))
    × IsCarrying crates m asking.session.sent (length bound.session.sent)
    × (m.wrote ≡ down.wrote + 1)
unfolding on_frame on_register handle_reg_frame send new_reg_ack_frame Proxy.on_read new_data_frame
    on_permit on_accept on_task
hello_writes =
    write_round-goes_on crates crates-AreCrates hello down asking.session.sent
      (length bound.session.sent)
      (record {
        ciphers = client_cipher-IsCipher;
        same_key = refl;
        carries = tt;
        counts = omega arith;
      })
      refl (_, refl, omega arith)

abbrev on_wire : Line crates
on_wire = hello_writes.0

on_wire-Wired :
    Wired crates configs 5 asking asking-Reach (ClientSite.start configs) ClientSite.here on_wire up
unfolding on_frame on_register handle_reg_frame send new_reg_ack_frame Proxy.on_read new_data_frame
    on_permit on_accept on_task
on_wire-Wired = server_wrote hello on_wire refl hello_writes.1 asking-Wired

start-Slim : Slim crates (ClientSite.start configs).sent
start-Slim i f at = cc

Wired-Refines_example :
    Refines crates configs 5 asking asking-Reach
      (ClientSite.start configs)
      ClientSite.here
      on_wire
      up
Wired-Refines_example =
    Wired-Refines crates crates-AreCrates configs 5 asking asking-Reach (ClientSite.start configs)
      ClientSite.here on_wire up (omega arith) (Slim-Fit crates _ asking-Slim)
      (Slim-Fit crates (ClientSite.start configs).sent start-Slim) on_wire-Wired

Wired-Flows_example :
    Flows crates on_wire asking.session.sent × Flows crates up (ClientSite.start configs).sent
Wired-Flows_example =
    Wired-Flows crates crates-AreCrates configs 5 asking asking-Reach (ClientSite.start configs)
      ClientSite.here on_wire up (omega arith) asking-Slim start-Slim on_wire-Wired

Wired-delivers_example :
    (z : ClientSite.Site) × (t : ClientSite.Reach configs z) × (later : Line crates) × Wired crates
      configs 5 asking asking-Reach z t later up
    × Delivers crates configs asking.session.sent all_accept none_gone
        (ClientSite.start configs)
        ClientSite.here
        on_wire
        z
        t
        later
    × ((p c : ℕ) → ClientGiven.received p c t ≡ chunks_read p c asking-Reach)
Wired-delivers_example =
    Wired-delivers crates crates-AreCrates configs all_accept none_gone 5 asking asking-Reach
      (ClientSite.start configs) ClientSite.here on_wire up (omega arith) asking-Slim start-Slim
      on_wire-Wired

one_left :
    (wire : List (List ℕ))
    → 1 + length wire ≡ 2
    → (bytes : List ℕ) × (rest : List (List ℕ)) × (wire ≡ bytes ∷ rest)
one_left [] h = absurd (omega arith)
one_left (bytes ∷ rest) h = (bytes, rest, refl)

-- The client reads it.
hello_reads :
    (m : Line crates) × (read_round crates on_wire ≡ returns (some (ok (skip_fields hello), m)))
unfolding on_frame on_register handle_reg_frame send new_reg_ack_frame Proxy.on_read new_data_frame
    on_permit on_accept on_task
hello_reads =
    let v = hello_writes.2 in
    let (bytes, rest, e) = one_left on_wire.wire (v.counts ∙ hello_writes.3) in
    let (f, m, at, read, _, _, _) =
      read_round-next crates crates-AreCrates on_wire asking.session.sent 1 bytes rest v e in
    (
      m,
      subst (λ g. read_round crates on_wire ≡ returns (some (ok (skip_fields g), m)))
          (sym (some_inj at)) read,
    )

abbrev arrived : Line crates
arrived = hello_reads.0

answering-Wired : Wired crates configs 5 asking asking-Reach answering answering-Reach arrived up
answering-Wired =
    client_worked answer_step tt
      (client_read all_accept none_gone (skip_fields hello) arrived hello_reads.1 on_wire-Wired)

answering-Slim : Slim crates answering.sent
unfolding ClientSite.on_read ClientSite.on_frame_spawned new_data_frame
answering-Slim zero f at = subst (IsSlim crates) (some_inj at) (_, refl, omega arith)
answering-Slim (suc i) f at = cc

few_sent : 5 + length answering.sent < 2 ^ 64
unfolding ClientSite.on_read ClientSite.on_frame_spawned
few_sent = omega arith

Wired-returns_example :
    (m : ℕ) × (z : Site) × (t : Site.Reach m z) × (later : Line crates) × Wired crates configs m z t
      answering answering-Reach arrived later
    × GoesUp crates answering.sent 5 asking asking-Reach up m z t later
    × (ClientReads.chunks_read 0 0 answering-Reach ≡ stream (sender_of 0 0) z.session.delivered)
unfolding on_accept on_permit Proxy.on_read
Wired-returns_example =
    Wired-returns crates crates-AreCrates configs 0 0 0 5 asking
      (Proxy.on_read true 0 (codes "hello") first_runs) asking-Reach answering answering-Reach
      arrived up few_sent asking-Slim answering-Slim (tt, λ k. refl) refl refl answering-Wired
