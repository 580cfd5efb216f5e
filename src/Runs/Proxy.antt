-- ===== src/Runs/Proxy.antt =====
-- A listener that has accepted two connections, and the theorems on it.
use rfrp.Base.{ℕ, ◌≡◌, refl, arith, Bool, true, none, leb}
use rfrp.Base.Bytes.{codes}
use rfrp.Proxy.{
  Listener, listen, on_accept, on_permit, on_read, on_reader_end, runs, accepted, granted, read,
  Reach, here, next,
}
use rfrp.Proxy.Live.{IsLive, Reach-IsLive}
use rfrp.Proxy.Progress.{IsServedSoon, waiting-IsServedSoon}

abbrev first_waits : Listener
first_waits = on_accept (listen 5)

abbrev first_reads : Listener
first_reads = on_read true 0 (codes "hello") (on_permit 0 1023 first_waits)

first_waits-Reach : Reach (listen 5) 1 first_waits
first_waits-Reach = next here (accepted (listen 5) refl)

first_reads-Reach : Reach (listen 5) 3 first_reads
unfolding on_accept on_permit runs
first_reads-Reach =
    next (next first_waits-Reach (granted first_waits 0 1023 refl refl))
      (read (on_permit 0 1023 first_waits) true 0 (codes "hello") refl)

second_waits-Reach : Reach (listen 5) 4 (on_accept first_reads)
unfolding on_accept on_permit on_read
second_waits-Reach = next first_reads-Reach (accepted first_reads refl)

Reach-IsLive_example : IsLive 4 (on_accept first_reads)
Reach-IsLive_example = Reach-IsLive 5 4 (omega arith) second_waits-Reach

waiting-IsServedSoon_example : IsServedSoon 1 (on_accept first_reads)
unfolding on_accept on_permit on_read
waiting-IsServedSoon_example =
    waiting-IsServedSoon 5 4 1 (on_accept first_reads) (omega arith) second_waits-Reach refl

abbrev low_ports : ℕ → Bool
low_ports p = leb p 30000

closed_leaves_none : (on_reader_end 0 first_reads).routing 0 ≡ none
unfolding on_reader_end
closed_leaves_none = refl
