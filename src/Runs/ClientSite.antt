-- ===== src/Runs/ClientSite.antt =====
-- A client that opens a connection for a payload, and one that opens another under the same id.
use rfrp.Base.{ℕ, ◌≡◌, refl, arith, Bool, true, false, [], ◌∷◌, none, some}
use rfrp.Base.Dict.{Dict, empty, insert}
use rfrp.Base.Bytes.{codes}
use rfrp.Config.{Text, ClientInfo}
use rfrp.Frame.{RfrpFrame, new_data_frame}
use rfrp.Client.{World, ConnSender, on_read_ends, on_frame, on_data}
use rfrp.Client.Mirrors.{link_in}
use rfrp.Client.Site.{
  Site, start, reads_for, on_frame_spawned, on_end, on_read, framed, read, Reach, here, next,
}
use rfrp.Client.Site.Atomic.{still, ended_during, Alike, on_frame-atomic}
use rfrp.Client.Site.Given.{link_of, given, Reach-given, Reach-link}
use rfrp.Client.Site.Stale.{on_end-stale}
use rfrp.Streams.{stream}
use rfrp.Runs.Config.{entry}

abbrev pub configs : Dict ClientInfo
configs = insert 0 (entry (codes "127.0.0.1")) empty

abbrev pub all_accept : Text → Bool
all_accept addr = true

abbrev pub none_gone : ConnSender → Bool
none_gone k = true

abbrev first_gone : ConnSender → Bool
first_gone k = false

abbrev pub hello : RfrpFrame
hello = new_data_frame (codes "hello") 0 0

abbrev pub opened : Site
opened = on_frame_spawned all_accept none_gone hello (start configs)

pub opened-Reach : Reach configs opened
opened-Reach = next here (framed all_accept none_gone hello (start configs))

opened_reads : reads_for 0 0 0 opened.readers ≡ true
unfolding on_frame_spawned on_frame on_data new_data_frame reads_for
opened_reads = refl

-- The service answers.
abbrev pub sent_hi : Site
sent_hi = on_read true 0 0 0 (codes "hi") opened

pub sent_hi-Reach : Reach configs sent_hi
sent_hi-Reach = next opened-Reach (read true 0 0 0 (codes "hi") opened opened_reads)

-- The write task is gone when the second payload comes, and a new connection is opened for the third.
abbrev dropped : Site
dropped = on_frame_spawned all_accept first_gone hello opened

abbrev reopened : Site
reopened = on_frame_spawned all_accept none_gone hello dropped

reopened-Reach : Reach configs reopened
reopened-Reach =
    next (next opened-Reach (framed all_accept first_gone hello opened))
      (framed all_accept none_gone hello dropped)

Reach-given_example : stream 0 opened.session.forwarded ≡ given 0 0 opened-Reach
unfolding on_frame_spawned on_frame on_data new_data_frame link_in
Reach-given_example =
    Reach-given configs 0 0 0 (entry (codes "127.0.0.1")) opened opened-Reach refl refl

Reach-link_example :
    (reads_for 1 0 0 reopened.readers ≡ true)
    × ((q j : ℕ) → link_of reopened.session q j ≡ some 1 → (0 ≡ q) × (0 ≡ j))
unfolding on_frame_spawned on_frame on_data new_data_frame link_in
Reach-link_example = Reach-link configs 0 0 1 reopened reopened-Reach refl

on_end-stale_example :
    (link_of (on_end 0 0 0 reopened).session 0 0 ≡ none)
    × (reads_for 1 0 0 (on_end 0 0 0 reopened).readers ≡ true)
unfolding on_frame_spawned on_frame on_data new_data_frame link_in reads_for
on_end-stale_example = on_end-stale configs 0 0 1 0 reopened reopened-Reach refl refl (omega arith)

-- The first connection ends while the client opens another one.
abbrev busy : World
busy = record { accepts = all_accept; ended = (0, 0) ∷ []; conn_open = none_gone }

abbrev another : RfrpFrame
another = new_data_frame (codes "hello") 0 1

on_frame-atomic_example : Alike (on_frame busy another opened.session) (
    on_frame
      (still busy)
      another
      (on_read_ends (ended_during busy another opened.session) opened.session))
on_frame-atomic_example = on_frame-atomic busy another configs opened opened-Reach
