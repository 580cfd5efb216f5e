-- ===== src/Runs/Streams.antt =====
-- Frames of two connections that cross the tunnel both ways, and the theorems on them.
use rfrp.Base.{ℕ, ◌≡◌, refl, arith, true, false, List, [], ◌∷◌, ◌++◌, concat}
use rfrp.Base.Dict.{empty, insert}
use rfrp.Base.Bytes.{codes}
use rfrp.Frame.{new_reg_ack_frame, new_data_frame}
use rfrp.Compress.{returns}
use rfrp.WriteTask.{write_loop}
use rfrp.WriteTask.Wire.{AllFit}
use rfrp.Pump.{write_rounds}
use rfrp.Site.Reads.{chunks_read}
use rfrp.Proxy.{on_accept, on_permit, handle_reg_frame, send}
use rfrp.Client
use rfrp.Client.Site as ClientSite
use rfrp.Client.Site.Reads as ClientReads
use rfrp.Runs.ClientSite.{configs, sent_hi, sent_hi-Reach}
use rfrp.Client.Loop as ClientLoop
use rfrp.Server
use rfrp.Server.{on_frame, on_register, on_data, find_routing, find_sender, deliver, on_task}
use rfrp.Server.Loop as ServerLoop
use rfrp.Streams.{stream}
use rfrp.Streams.Client as ClientStream
use rfrp.Streams.Server as ServerStream
use rfrp.Streams.EndToEnd.{all_taken, marked, heard}
use rfrp.Streams.Sockets.{external_to_internal, internal_to_external}
use rfrp.Runs.StandIns.{crates, crates-AreCrates}
use rfrp.Runs.StandIns.Buffer.{
  fresh, plain_writer, plain_writer-IsBufWriter, plain_writer-IsReliable,
}
use rfrp.Runs.Config.{entry}
use rfrp.Runs.Crypto.{client_cipher, server_cipher, client_cipher-IsCipher, used}
use rfrp.Site.{sender_of}
use rfrp.Site.Asked.{asked}
use rfrp.Runs.Site.{read_from, read_from-Reach, answered, answered-Reach, first_runs}

read_from-AllFit : AllFit crates (all_taken read_from.session.sent)
unfolding new_data_frame new_reg_ack_frame on_frame on_register on_data find_routing find_sender
    deliver on_task on_accept on_permit handle_reg_frame send
read_from-AllFit = ((_, refl, omega arith), ((_, refl, omega arith), tt))

external_to_internal_example :
    (wire : List (List ℕ)) × (s : Client.Session) × (write_loop crates
        (all_taken read_from.session.sent)
        client_cipher
        []
        used
      ≡ returns wire)
    × (ClientLoop.main_loop crates server_cipher
          (ClientStream.arrivals wire)
          []
          used
          (Client.start (insert 0 (entry (codes "127.0.0.1")) empty))
        ≡ returns (ClientLoop.waiting s))
    × (plain_writer.socket
          (write_rounds plain_writer (marked (false ∷ true ∷ []) (heard 0 0 s)) fresh).1
        ≡ plain_writer.socket fresh ++ concat (chunks_read 0 0 read_from-Reach))
external_to_internal_example =
    external_to_internal crates crates-AreCrates client_cipher server_cipher client_cipher-IsCipher
      refl plain_writer plain_writer-IsBufWriter plain_writer-IsReliable fresh refl
      (false ∷ true ∷ []) used used 6 0 0 read_from (insert 0 (entry (codes "127.0.0.1")) empty)
      (entry (codes "127.0.0.1")) read_from-Reach (omega arith) read_from-AllFit refl

sent_hi-AllFit : AllFit crates (all_taken sent_hi.sent)
unfolding new_data_frame ClientSite.on_read ClientSite.on_frame_spawned
sent_hi-AllFit = ((_, refl, omega arith), tt)

internal_to_external_example :
    (wire : List (List ℕ)) × (s : Server.Session) × (write_loop crates
        (all_taken sent_hi.sent)
        client_cipher
        []
        used
      ≡ returns wire)
    × (ServerLoop.main_loop crates server_cipher
          (ServerStream.arrivals wire)
          []
          used
          answered.session
        ≡ returns (ServerLoop.waiting s))
    × (plain_writer.socket
          (write_rounds plain_writer (marked [] (stream (sender_of 0 0) s.delivered)) fresh).1
        ≡ plain_writer.socket fresh
          ++ concat (asked 0 0 answered-Reach ++ ClientReads.chunks_read 0 0 sent_hi-Reach))
unfolding on_accept on_permit
internal_to_external_example =
    internal_to_external crates crates-AreCrates client_cipher server_cipher client_cipher-IsCipher
      refl plain_writer plain_writer-IsBufWriter plain_writer-IsReliable fresh refl [] used used
      configs 5 0 0 0 answered first_runs answered-Reach sent_hi sent_hi-Reach (omega arith)
      sent_hi-AllFit refl refl
