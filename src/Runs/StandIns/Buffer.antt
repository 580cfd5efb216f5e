-- ===== src/Runs/StandIns/Buffer.antt =====
-- A buffered writer over a socket that takes everything.
use rfrp.Base.{ℕ, true, refl, sym, List, [], ◌++◌}
use mathlib.Core.List.{append_assoc, append-nil}
use rfrp.Pump.{BufWriter}
use rfrp.Pump.Flush.{IsBufWriter, IsReliable}

pub record Buffer : Type 0 where
  pub on_socket : List ℕ
  pub in_buffer : List ℕ

abbrev pub fresh : Buffer
fresh = record { on_socket = []; in_buffer = [] }

abbrev pub plain_writer : BufWriter
plain_writer = record {
  State = Buffer;
  write_all = λ s bytes. (true, record s { in_buffer = s.in_buffer ++ bytes });
  flush = λ s. (true, record { on_socket = s.on_socket ++ s.in_buffer; in_buffer = [] });
  socket = λ s. s.on_socket;
  buffered = λ s. s.in_buffer;
}

pub plain_writer-IsBufWriter : IsBufWriter plain_writer
plain_writer-IsBufWriter = record {
  takes = λ s bytes. (
    bytes,
    [],
    sym (append-nil bytes),
    sym (append_assoc s.on_socket s.in_buffer bytes),
    λ h. refl,
  );
  keeps = λ s. append-nil (s.on_socket ++ s.in_buffer);
  empties = λ s h. refl;
}

pub plain_writer-IsReliable : IsReliable plain_writer
plain_writer-IsReliable = record { writes = λ s bytes. refl; flushes = λ s. refl }
