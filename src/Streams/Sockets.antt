-- ===== src/Streams/Sockets.antt =====
-- From the sockets of one side to the sockets of the other: the read task of a connection, the channel
-- that it shares with the other tasks, the wire, and the write task at the other end.
use rfrp.Base.{ℕ, ◌^◌, ◌<◌, ◌≡◌, ap, ◌∙◌, Bool, List, [], ◌++◌, some, concat}
use mathlib.Core.Path.{ap₂}
use rfrp.Base.Dict.{Dict}
use rfrp.Config.{ClientInfo}
use rfrp.Crypto.{Cipher}
use rfrp.Crypto.RoundTrip.{IsCipher}
use rfrp.Compress.{returns}
use rfrp.Codec.{Crates}
use rfrp.Codec.Laws.{AreCrates}
use rfrp.WriteTask.{write_loop}
use rfrp.WriteTask.Wire.{AllFit}
use rfrp.Pump.{BufWriter, write_rounds}
use rfrp.Pump.Flush.{IsBufWriter, IsReliable}
use rfrp.Proxy.{Listener}
use rfrp.Site
use rfrp.Site.{Site, listening, sender_of}
use rfrp.Site.Invariant.{Reach-IsJoined}
use rfrp.Site.Senders.{joined-IsSoleSender}
use rfrp.Site.Asked.{asked}
use rfrp.Site.Deliveries.{Reach-asked}
use rfrp.Site.Reads.{chunks_read, Reach-chunks_read}
use rfrp.Client
use rfrp.Client.Loop as ClientLoop
use rfrp.Server
use rfrp.Server.Loop as ServerLoop
use rfrp.Streams.{stream}
use rfrp.Client.Site as ClientSite
use rfrp.Client.Site.Reads as ClientReads
use rfrp.Streams.Client as ClientStream
use rfrp.Streams.Server as ServerStream
use rfrp.Streams.EndToEnd.{all_taken, marked, heard, inbound_delivery, outbound_delivery}

module _ (crates : Crates) (laws : AreCrates crates) (c d : Cipher) (h : IsCipher c)
    (same : d.key ≡ c.key) (b : BufWriter) (writes : IsBufWriter b) (reliable : IsReliable b)
    (fresh : b.State) (empty : b.buffered fresh ≡ []) (marks : List Bool)
    (compress : crates.deflate.State) (decompress : crates.inflate.State) where
  -- What the read task of an external connection reads, and the channel takes, comes out at the
  -- internal service, byte for byte: in whatever way the server's main loop, its listeners and their
  -- read tasks interleave in fewer than 2^64 steps, after encoding by the write task, decoding and
  -- dispatch by the client's main loop, and the write task of the connection. It is on the socket when
  -- that task waits for more on its open channel: it need not be closed. The client has registered
  -- the proxy, services accept, no connection of the client ends or fails, the writer's buffer is
  -- empty at first, writes to the socket succeed, the ciphers have one key, and each frame fits.
  pub external_to_internal :
      (n p conn : ℕ) (x : Site) (configs : Dict ClientInfo) (info : ClientInfo) (r : Site.Reach n x)
      → n < 2 ^ 64
      → AllFit crates (all_taken x.session.sent)
      → configs p ≡ some info
      → (wire : List (List ℕ)) × (s : Client.Session) × (write_loop crates
            (all_taken x.session.sent)
            c
            []
            compress
          ≡ returns wire)
        × (ClientLoop.main_loop crates d
              (ClientStream.arrivals wire)
              []
              decompress
              (Client.start configs)
            ≡ returns (ClientLoop.waiting s))
        × (b.socket (write_rounds b (marked marks (heard p conn s)) fresh).1
            ≡ b.socket fresh ++ concat (chunks_read p conn r))
  external_to_internal n p conn x configs info r small fits at =
      let (wire, s, wrote, ran, put) =
        inbound_delivery crates laws c d h same b writes reliable fresh empty marks x.session.sent
          fits compress decompress configs p conn info at in
      (
        wire,
        s,
        wrote,
        ran,
        put ∙ ap (λ t. b.socket fresh ++ concat t) (Reach-chunks_read n p conn x r small),
      )

  -- What the read tasks of an internal connection read, and the channel takes, comes out at the
  -- external connection, byte for byte, behind what the connection was sent before: in whatever way
  -- the tasks of either side came there, the server's in fewer than 2^64 steps, after encoding by the
  -- write task, decoding and dispatch by the server's main loop, and the write task of the connection.
  -- It is on the socket when that task waits for more on its open channel: it need not be closed. The
  -- connection is in its listener's table, no receiver is gone while the server reads, the writer's
  -- buffer is empty at first, writes to the socket succeed, the ciphers have one key, and each frame
  -- fits.
  pub internal_to_external :
      (configs : Dict ClientInfo) (n p conn k : ℕ) (x : Site) (l : Listener) (r : Site.Reach n x)
      (y : ClientSite.Site) (s : ClientSite.Reach configs y)
      → n < 2 ^ 64
      → AllFit crates (all_taken y.sent)
      → x.tasks p ≡ listening l
      → l.routing conn ≡ some k
      → (wire : List (List ℕ)) × (s' : Server.Session) × (write_loop crates
            (all_taken y.sent)
            c
            []
            compress
          ≡ returns wire)
        × (ServerLoop.main_loop crates d (ServerStream.arrivals wire) [] decompress x.session
            ≡ returns (ServerLoop.waiting s'))
        × (b.socket (write_rounds b (marked marks (stream (sender_of p k) s'.delivered)) fresh).1
            ≡ b.socket fresh ++ concat (asked p conn r ++ ClientReads.chunks_read p conn s))
  internal_to_external configs n p conn k x l r y s small fits at entry =
      let v = Reach-IsJoined n small r in
      let (wire, s', wrote, ran, put) =
        outbound_delivery crates laws c d h same b writes reliable fresh empty marks y.sent fits
          compress decompress x.session p conn (sender_of p k) v.coherent
          (joined-IsSoleSender v p conn k l at entry) in
      (
        wire,
        s',
        wrote,
        ran,
        put
            ∙ ap (λ t. b.socket fresh ++ concat t)
                (ap₂ (λ before after. before ++ after) (Reach-asked n p conn k x l r small at entry)
                  (ClientReads.Reach-chunks_read configs p conn y s)),
      )
