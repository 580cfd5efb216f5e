-- ===== src/Streams/EndToEnd.antt =====
-- From one side's channel to the sockets of the other side: encoding, wire, decoding, main loop and the
-- write task of a connection.
use rfrp.Base.{
  ℕ, ◌≡◌, refl, ap, ◌∙◌, Bool, true, false, List, [], ◌∷◌, ◌++◌, Option, none, some, concat,
}
use rfrp.Base.Dict.{Dict}
use rfrp.Config.{ClientInfo}
use rfrp.Frame.{RfrpFrame, register, register_ack, control, data_frame, skip_fields}
use rfrp.Crypto.{Cipher}
use rfrp.Crypto.RoundTrip.{IsCipher}
use rfrp.Compress.{returns}
use rfrp.Codec.{Crates}
use rfrp.Codec.Laws.{AreCrates}
use rfrp.WriteTask
use rfrp.WriteTask.{write_loop}
use rfrp.WriteTask.Wire.{taken, as_read, read_all, AllFit, read_all-write_loop}
use rfrp.Pump.{Item, BufWriter, write_rounds}
use rfrp.Pump.Flush.{IsBufWriter, IsReliable, IsDrained, payloads_of, write_rounds-drained}
use rfrp.Pump.Reading.{payload_of, payloads}
use rfrp.Client
use rfrp.Client.{ConnSender}
use rfrp.Client.Tunnel.{Tunnel, start_tunnel}
use rfrp.Client.Mirrors.{link_in, Mirrors}
use rfrp.Client.Links.{start-Mirrors}
use rfrp.Client.Loop as ClientLoop
use rfrp.Server
use rfrp.Server.Invariant.{IsCoherent}
use rfrp.Server.Service.{service_of, service_of-Provides}
use rfrp.Server.Loop as ServerLoop
use rfrp.Streams.{stream}
use rfrp.Streams.Inbound.{IsWired, received_by, received, received-relay_all}
use rfrp.Streams.Client as ClientStream
use rfrp.Streams.Client.{skipped}
use rfrp.Streams.Outbound.{IsSoleSender, handed-serve_all}
use rfrp.Streams.Server as ServerStream

-- Every frame is taken by the wire.
abbrev pub all_taken : List RfrpFrame → List WriteTask.Item
all_taken [] = []
all_taken (f ∷ fs) = (f, true) ∷ all_taken fs

taken-all_taken : (fs : List RfrpFrame) → taken (all_taken fs) ≡ fs
taken-all_taken [] = refl
taken-all_taken (f ∷ fs) = ap (λ l. f ∷ l) (taken-all_taken fs)

pub payload_of-skip_fields :
    (p c : ℕ) (f : RfrpFrame) → payload_of p c (skip_fields f) ≡ payload_of p c f
unfolding skip_fields
payload_of-skip_fields p c (register i) = refl
payload_of-skip_fields p c (register_ack r) = refl
payload_of-skip_fields p c (control i) = refl
payload_of-skip_fields p c (data_frame d) = refl

payloads-skipped : (p c : ℕ) (fs : List RfrpFrame) → payloads p c (skipped fs) ≡ payloads p c fs
payloads-skipped p c [] = refl
payloads-skipped p c (f ∷ fs) = rw (payload_of-skip_fields p c f, payloads-skipped p c fs) refl

-- Payloads for a write task that then waits on an open channel, each with whether the channel was empty
-- behind it: it was behind the last. Missing marks are false.
abbrev pub marked : List Bool → List (List ℕ) → List Item
marked marks [] = []
marked marks (bytes ∷ []) = (bytes, true) ∷ []
marked [] (bytes ∷ (next ∷ rest)) = (bytes, false) ∷ marked [] (next ∷ rest)
marked (m ∷ marks) (bytes ∷ (next ∷ rest)) = (bytes, m) ∷ marked marks (next ∷ rest)

payloads_of-marked :
    (marks : List Bool) (payloads : List (List ℕ)) → payloads_of (marked marks payloads) ≡ payloads
payloads_of-marked marks [] = refl
payloads_of-marked marks (bytes ∷ []) = refl
payloads_of-marked [] (bytes ∷ (next ∷ rest)) =
    ap (λ l. bytes ∷ l) (payloads_of-marked [] (next ∷ rest))
payloads_of-marked (m ∷ marks) (bytes ∷ (next ∷ rest)) =
    ap (λ l. bytes ∷ l) (payloads_of-marked marks (next ∷ rest))

marked-IsDrained :
    (marks : List Bool) (payloads : List (List ℕ)) → IsDrained (marked marks payloads)
marked-IsDrained marks [] = tt
marked-IsDrained marks (bytes ∷ []) = refl
marked-IsDrained [] (bytes ∷ (next ∷ [])) = refl
marked-IsDrained [] (bytes ∷ (next ∷ (x ∷ rest))) = marked-IsDrained [] (next ∷ (x ∷ rest))
marked-IsDrained (m ∷ marks) (bytes ∷ (next ∷ [])) = refl
marked-IsDrained (m ∷ []) (bytes ∷ (next ∷ (x ∷ rest))) = marked-IsDrained [] (next ∷ (x ∷ rest))
marked-IsDrained (m ∷ (n ∷ marks)) (bytes ∷ (next ∷ (x ∷ rest))) =
    marked-IsDrained (n ∷ marks) (next ∷ (x ∷ rest))

-- What the sender of a connection took from the client's session.
abbrev pub heard_by : Option ConnSender → Client.Session → List (List ℕ)
heard_by none s = []
heard_by (some k) s = stream k s.forwarded

abbrev pub heard : ℕ → ℕ → Client.Session → List (List ℕ)
heard p c s = heard_by (link_in (s.proxy_conns p) c s.conn_maps) s

heard-Mirrors :
    (p c : ℕ) (s : Client.Session) (t : Tunnel) → Mirrors s t → heard p c s ≡ received p c t
heard-Mirrors p c s t m = ap (λ o. heard_by o s) (m.links p c) ∙ by_link (t.link p c)
  where
    by_link : (o : Option ConnSender) → heard_by o s ≡ received_by o t
    by_link none = refl
    by_link (some k) = ap (stream k) m.passed

start_tunnel-IsWired : (configs : Dict ClientInfo) → IsWired (start_tunnel configs)
start_tunnel-IsWired configs = record {
  below = λ p c s h. cc;
  apart = λ p c q j s h k. cc;
  unused = λ s h. refl;
}

module _ (crates : Crates) (laws : AreCrates crates) (c d : Cipher) (h : IsCipher c)
    (same : d.key ≡ c.key) (b : BufWriter) (writes : IsBufWriter b) (reliable : IsReliable b)
    (fresh : b.State) (empty : b.buffered fresh ≡ []) (marks : List Bool) (fs : List RfrpFrame)
    (fits : AllFit crates (all_taken fs)) (compress : crates.deflate.State)
    (decompress : crates.inflate.State) where
  arrives :
      (wire : List (List ℕ)) × (write_loop crates (all_taken fs) c [] compress ≡ returns wire)
      × (read_all crates wire d [] decompress ≡ returns (as_read fs))
  arrives =
      let (wire, wrote, arrived) =
        read_all-write_loop crates laws (all_taken fs) c d h same fits [] [] compress decompress in
      (wire, wrote, arrived ∙ ap (λ l. returns (as_read l)) (taken-all_taken fs))

  put :
      (payloads : List (List ℕ))
      → b.socket (write_rounds b (marked marks payloads) fresh).1
        ≡ b.socket fresh ++ concat payloads
  put payloads =
      (write_rounds-drained b writes reliable (marked marks payloads) fresh empty
        (marked-IsDrained marks payloads)).2
      ∙ ap (λ l. b.socket fresh ++ concat l) (payloads_of-marked marks payloads)

  -- What the server sends to a connection of a registered proxy comes out at the internal service, byte
  -- for byte, whatever frames of other connections lie in between: the server's write task encodes the
  -- frames, the client's main loop reads them from the wire and waits for more, and the write task of
  -- the connection puts the payloads for it on the socket, joined in order, and waits for more, too.
  -- The writer's buffer is empty at first, services accept, no
  -- connection ends or fails, the ciphers have one key, and each frame fits.
  pub inbound_delivery :
      (configs : Dict ClientInfo) (p conn : ℕ) (info : ClientInfo)
      → configs p ≡ some info
      → (wire : List (List ℕ)) × (s : Client.Session) × (write_loop crates
            (all_taken fs)
            c
            []
            compress
          ≡ returns wire)
        × (ClientLoop.main_loop crates d
              (ClientStream.arrivals wire)
              []
              decompress
              (Client.start configs)
            ≡ returns (ClientLoop.waiting s))
        × (b.socket (write_rounds b (marked marks (heard p conn s)) fresh).1
            ≡ b.socket fresh ++ concat (payloads p conn fs))
  inbound_delivery configs p conn info at =
      let (wire, wrote, arrived) = arrives in
      let (s, ran, m) =
        ClientStream.main_loop-arrivals crates laws d wire fs [] decompress (Client.start configs)
          (start_tunnel configs) (start-Mirrors configs) arrived in
      (
        wire,
        s,
        wrote,
        ran,
        put (heard p conn s)
            ∙ ap (λ l. b.socket fresh ++ concat l)
                (heard-Mirrors p conn s _ m
                  ∙ received-relay_all p conn info (skipped fs) (start_tunnel configs)
                      (start_tunnel-IsWired configs) at
                  ∙ payloads-skipped p conn fs),
      )

  -- What the client sends to a connection with a sender of its own comes out at the external
  -- connection, byte for byte, behind what the sender took before, whatever frames lie in between: the
  -- client's write task encodes the frames, the server's main loop reads them and waits for more, and
  -- the write task of the connection puts the payloads for it on the socket, joined in order, and
  -- waits for more, too. The writer's buffer is empty at first, no
  -- receiver is gone, the ciphers have one key, each frame fits, and the session is coherent.
  pub outbound_delivery :
      (s : Server.Session) (p conn k : ℕ)
      → IsCoherent s
      → IsSoleSender p conn k (service_of s)
      → (wire : List (List ℕ)) × (s' : Server.Session) × (write_loop crates
            (all_taken fs)
            c
            []
            compress
          ≡ returns wire)
        × (ServerLoop.main_loop crates d (ServerStream.arrivals wire) [] decompress s
            ≡ returns (ServerLoop.waiting s'))
        × (b.socket (write_rounds b (marked marks (stream k s'.delivered)) fresh).1
            ≡ b.socket fresh ++ concat (stream k s.delivered ++ payloads p conn fs))
  outbound_delivery s p conn k v sole =
      let (wire, wrote, arrived) = arrives in
      let (s', ran, _, m) =
        ServerStream.main_loop-arrivals crates laws d wire fs [] decompress s (service_of s) v
          (service_of-Provides s) arrived in
      (
        wire,
        s',
        wrote,
        ran,
        put (stream k s'.delivered)
            ∙ ap (λ l. b.socket fresh ++ concat l)
                (ap (stream k) m.handed
                  ∙ handed-serve_all p conn k (skipped fs) (service_of s) sole
                  ∙ ap (λ l. stream k s.delivered ++ l) (payloads-skipped p conn fs)),
      )
