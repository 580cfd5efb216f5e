-- ===== src/Runs/Pump.antt =====
-- The tasks of a connection at work, and the theorems on them.
use rfrp.Base.{ℕ, ◌≡◌, refl, true, false, List, [], ◌∷◌, ◌++◌, concat}
use rfrp.Base.Bytes.{codes}
use rfrp.Pump.{Item, Read, eof, chunk, write_round, write_rounds, write_task}
use rfrp.Pump.Flush.{payloads_of, accepted, write_task_prefix, write_rounds-drained}
use rfrp.Runs.StandIns.Buffer.{
  fresh, plain_writer, plain_writer-IsBufWriter, plain_writer-IsReliable,
}

abbrev pub two_items : List Item
two_items = (codes "hel", false) ∷ (codes "lo", true) ∷ []

write_task_prefix_example :
    (rest : List ℕ) × (accepted plain_writer fresh ++ concat (payloads_of two_items)
      ≡ plain_writer.socket (write_task plain_writer two_items fresh) ++ rest)
write_task_prefix_example = write_task_prefix plain_writer plain_writer-IsBufWriter two_items fresh

write_rounds-drained_example :
    ((write_rounds plain_writer two_items fresh).0 ≡ true)
    × (plain_writer.buffered (write_rounds plain_writer two_items fresh).1 ≡ [])
    × (plain_writer.socket (write_rounds plain_writer two_items fresh).1
        ≡ plain_writer.socket fresh ++ concat (payloads_of two_items))
    × (plain_writer.socket (write_task plain_writer two_items fresh)
        ≡ plain_writer.socket fresh ++ concat (payloads_of two_items))
write_rounds-drained_example =
    write_rounds-drained plain_writer plain_writer-IsBufWriter plain_writer-IsReliable two_items
      fresh refl refl

hello_written : plain_writer.socket (write_task plain_writer two_items fresh) ≡ codes "hello"
unfolding write_task write_round
hello_written = refl

abbrev reads : List Read
reads = chunk (codes "a") true ∷ chunk (codes "b") true ∷ eof ∷ chunk (codes "c") true ∷ []
