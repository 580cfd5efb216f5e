-- ===== src/Runs/WriteTask.antt =====
-- Three frames for the wire, of which the writer takes two, and the theorem on them.
use rfrp.Base.{ℕ, ◌≡◌, refl, arith, true, false, List, [], ◌∷◌}
use rfrp.Base.Bytes.{codes}
use rfrp.Frame.{new_data_frame, new_ping_frame}
use rfrp.Compress.{returns}
use rfrp.WriteTask.{Item, write_loop}
use rfrp.WriteTask.Wire.{taken, read_all, as_read, AllFit, read_all-write_loop}
use rfrp.Runs.StandIns.{crates, crates-AreCrates}
use rfrp.Runs.Crypto.{client_cipher, server_cipher, client_cipher-IsCipher, used}

abbrev pub items : List Item
items =
    (new_data_frame (codes "a") 0 1, true)
    ∷ (new_ping_frame, true)
    ∷ (new_data_frame (codes "b") 0 2, false)
    ∷ []

pub items-AllFit : AllFit crates items
unfolding new_data_frame new_ping_frame
items-AllFit = ((_, refl, omega arith), ((_, refl, omega arith), ((_, refl, omega arith), tt)))

read_all-write_loop_example :
    (wire : List (List ℕ)) × (write_loop crates items client_cipher [] used ≡ returns wire)
    × (read_all crates wire server_cipher [] used ≡ returns (as_read (taken items)))
read_all-write_loop_example =
    read_all-write_loop crates crates-AreCrates items client_cipher server_cipher
      client_cipher-IsCipher refl items-AllFit [] [] used used
