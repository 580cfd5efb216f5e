-- ===== src/Pump/Flush.antt =====
-- What a write task puts on its socket.
use rfrp.Base.{
  ℕ, ◌≡◌, refl, sym, ap, ◌∙◌, Bool, true, false, List, [], ◌∷◌, ◌++◌, concat, if◌then◌else◌,
}
use mathlib.Core.List.{append_assoc, append-nil}
use rfrp.Pump.{BufWriter, Item, write_round, write_rounds, write_task}

-- Nothing is lost, made or moved between buffer and socket: a call that fails has still taken a part of
-- the bytes, if any, and a successful flush leaves the buffer empty.
pub record IsBufWriter (b : BufWriter) : Type 0 where
  pub takes :
      (s : b.State) (bytes : List ℕ)
      → (taken rest : List ℕ) × (bytes ≡ taken ++ rest)
        × (b.socket (b.write_all s bytes).1 ++ b.buffered (b.write_all s bytes).1
            ≡ (b.socket s ++ b.buffered s) ++ taken)
        × ((b.write_all s bytes).0 ≡ true → rest ≡ [])
  pub keeps :
      (s : b.State)
      → b.socket (b.flush s).1 ++ b.buffered (b.flush s).1 ≡ b.socket s ++ b.buffered s
  pub empties : (s : b.State) → (b.flush s).0 ≡ true → b.buffered (b.flush s).1 ≡ []

-- The socket of this state takes all that it is given.
pub record IsReliable (b : BufWriter) : Type 0 where
  pub writes : (s : b.State) (bytes : List ℕ) → (b.write_all s bytes).0 ≡ true
  pub flushes : (s : b.State) → (b.flush s).0 ≡ true

abbrev pub payloads_of : List Item → List (List ℕ)
payloads_of [] = []
payloads_of ((bytes, drained) ∷ items) = bytes ∷ payloads_of items

-- The channel was empty once the last of them had been written.
abbrev pub IsDrained : List Item → Type 0
IsDrained [] = Unit
IsDrained ((bytes, drained) ∷ []) = drained ≡ true
IsDrained (item ∷ (next ∷ items)) = IsDrained (next ∷ items)

-- All that the writer has accepted.
abbrev pub accepted : (b : BufWriter) → b.State → List ℕ
accepted b s = b.socket s ++ b.buffered s

module _ (b : BufWriter) (laws : IsBufWriter b) where
  -- A round accepts a first part of its payload, and all of it if it goes on.
  write_round-accepts :
      (bytes : List ℕ) (drained : Bool) (s : b.State)
      → (taken rest : List ℕ) × (bytes ≡ taken ++ rest)
        × (accepted b (write_round b (bytes, drained) s).1 ≡ accepted b s ++ taken)
        × ((write_round b (bytes, drained) s).0 ≡ true → rest ≡ [])
  unfolding write_round
  write_round-accepts bytes drained s =
      let (taken, rest, split, taking, whole) = laws.takes s bytes in
      by_result (b.write_all s bytes).0 (b.write_all s bytes).1 drained taken rest split taking
        whole
    where
      by_result :
          (good : Bool) (s' : b.State) (drained : Bool) (taken rest : List ℕ)
          → bytes ≡ taken ++ rest
          → accepted b s' ≡ accepted b s ++ taken
          → (good ≡ true → rest ≡ [])
          → let r : Bool × b.State =
              if good then (true, if drained then (b.flush s').1 else s') else (false, s') in
            (taken rest : List ℕ) × (bytes ≡ taken ++ rest)
            × (accepted b r.1 ≡ accepted b s ++ taken)
            × (r.0 ≡ true → rest ≡ [])
      by_result true s' true taken rest split taking whole =
          (taken, rest, split, laws.keeps s' ∙ taking, whole)
      by_result true s' false taken rest split taking whole = (taken, rest, split, taking, whole)
      by_result false s' drained taken rest split taking whole = (taken, rest, split, taking, whole)

  -- The loop accepts a first part of the payloads.
  write_rounds-accepts :
      (items : List Item) (s : b.State)
      → (rest : List ℕ) × (accepted b s ++ concat (payloads_of items)
          ≡ accepted b (write_rounds b items s).1 ++ rest)
  unfolding write_rounds
  write_rounds-accepts [] s = ([], refl)
  write_rounds-accepts ((bytes, drained) ∷ items) s =
      let (taken, left, split, taking, whole) = write_round-accepts bytes drained s in
      by_round (write_round b (bytes, drained) s).0 taken left split taking whole
        (write_rounds-accepts items (write_round b (bytes, drained) s).1)
    where
      s' : b.State
      s' = (write_round b (bytes, drained) s).1

      more : List ℕ
      more = concat (payloads_of items)

      by_round :
          (good : Bool) (taken left : List ℕ)
          → bytes ≡ taken ++ left
          → accepted b s' ≡ accepted b s ++ taken
          → (good ≡ true → left ≡ [])
          → (rest : List ℕ) × (accepted b s' ++ concat (payloads_of items)
              ≡ accepted b (write_rounds b items s').1 ++ rest)
          → let r : Bool × b.State = elim good [
            | true ↦ write_rounds b items s'
            | false ↦ (false, s')
          ] in
            (rest : List ℕ) × (accepted b s ++ (bytes ++ concat (payloads_of items))
              ≡ accepted b r.1 ++ rest)
      by_round true taken left split taking whole (rest, later) = (
        rest,
        ap (λ l. accepted b s ++ (l ++ more))
              (split ∙ ap (λ l. taken ++ l) (whole refl) ∙ append-nil taken)
            ∙ sym (append_assoc (accepted b s) taken more)
            ∙ ap (λ l. l ++ more) (sym taking)
            ∙ later,
      )
      by_round false taken left split taking whole later = (
        left ++ more,
        ap (λ l. accepted b s ++ (l ++ more)) split
            ∙ ap (λ l. accepted b s ++ l) (append_assoc taken left more)
            ∙ sym (append_assoc (accepted b s) taken (left ++ more))
            ∙ ap (λ l. l ++ (left ++ more)) (sym taking),
      )

  -- Whatever fails on the way, what the task has put on the socket is a first part of the payloads, in
  -- their order: nothing is lost in between, sent twice or made up.
  pub write_task_prefix :
      (items : List Item) (s : b.State)
      → (rest : List ℕ) × (accepted b s ++ concat (payloads_of items)
          ≡ b.socket (write_task b items s) ++ rest)
  unfolding write_task
  write_task_prefix items s =
      let (rest, e) = write_rounds-accepts items s in
      let s' = (write_rounds b items s).1 in
      (
        b.buffered (b.flush s').1 ++ rest,
        e
            ∙ ap (λ l. l ++ rest) (sym (laws.keeps s'))
            ∙ append_assoc (b.socket (b.flush s').1) (b.buffered (b.flush s').1) rest,
      )

  module _ (reliable : IsReliable b) where
    flushed : (s : b.State) → b.socket (b.flush s).1 ≡ accepted b s
    flushed s =
        sym (append-nil (b.socket (b.flush s).1))
        ∙ ap (λ l. b.socket (b.flush s).1 ++ l) (sym (laws.empties s (reliable.flushes s)))
        ∙ laws.keeps s

    written :
        (bytes : List ℕ) (s : b.State) → accepted b (b.write_all s bytes).1 ≡ accepted b s ++ bytes
    written bytes s =
        let (taken, rest, split, taking, whole) = laws.takes s bytes in
        taking
        ∙ ap (λ l. accepted b s ++ l)
            (sym
              (split ∙ ap (λ l. taken ++ l) (whole (reliable.writes s bytes)) ∙ append-nil taken))

    -- On a reliable socket each round goes on, with all of its payload accepted.
    write_round-goes_on :
        (item : Item) (s : b.State)
        → ((write_round b item s).0 ≡ true)
          × (accepted b (write_round b item s).1 ≡ accepted b s ++ item.0)
    write_round-goes_on (bytes, drained) s =
        let (taken, rest, split, taking, whole) = write_round-accepts bytes drained s in
        let good : (write_round b (bytes, drained) s).0 ≡ true =
          unfold write_round in rw (reliable.writes s bytes) refl in
        (
          good,
          taking
              ∙ ap (λ l. accepted b s ++ l)
                  (sym (split ∙ ap (λ l. taken ++ l) (whole good) ∙ append-nil taken)),
        )

    -- When the channel has been drained, everything is on the socket: nothing waits in the buffer.
    pub write_round-drained :
        (bytes : List ℕ) (s : b.State)
        → (b.buffered (write_round b (bytes, true) s).1 ≡ [])
          × (b.socket (write_round b (bytes, true) s).1 ≡ accepted b s ++ bytes)
    unfolding write_round
    write_round-drained bytes s =
        let s' = (b.write_all s bytes).1 in
        rw (reliable.writes s bytes)
          (laws.empties s' (reliable.flushes s'), flushed s' ∙ written bytes s)

    -- The loop goes on, and has accepted all payloads.
    write_rounds-goes_on :
        (items : List Item) (s : b.State)
        → ((write_rounds b items s).0 ≡ true)
          × (accepted b (write_rounds b items s).1 ≡ accepted b s ++ concat (payloads_of items))
    unfolding write_rounds
    write_rounds-goes_on [] s = (refl, sym (append-nil (accepted b s)))
    write_rounds-goes_on ((bytes, drained) ∷ items) s =
        let (good, taking) = write_round-goes_on (bytes, drained) s in
        let (going, later) = write_rounds-goes_on items (write_round b (bytes, drained) s).1 in
        rw (good, write_rounds)
          (
            going,
            later
                ∙ ap (λ l. l ++ concat (payloads_of items)) taking
                ∙ append_assoc (accepted b s) bytes (concat (payloads_of items)),
          )

    -- Behind the last round the buffer is empty.
    write_rounds-flushes :
        (bytes : List ℕ) (drained : Bool) (items : List Item) (s : b.State)
        → IsDrained ((bytes, drained) ∷ items)
        → b.buffered (write_rounds b ((bytes, drained) ∷ items) s).1 ≡ []
    unfolding write_rounds
    write_rounds-flushes bytes drained [] s h =
        rw ((write_round-goes_on (bytes, drained) s).0, write_rounds, h)
          ((write_round-drained bytes s).0)
    write_rounds-flushes bytes drained ((next, mark) ∷ items) s h =
        rw ((write_round-goes_on (bytes, drained) s).0, write_rounds)
          (write_rounds-flushes next mark items (write_round b (bytes, drained) s).1 h)

    write_rounds-empties :
        (items : List Item) (s : b.State)
        → b.buffered s ≡ []
        → IsDrained items
        → b.buffered (write_rounds b items s).1 ≡ []
    write_rounds-empties [] s e h = unfold write_rounds in e
    write_rounds-empties ((bytes, drained) ∷ items) s e h =
        write_rounds-flushes bytes drained items s h

    -- Whenever the loop waits on an open channel, everything is on the socket, though it flushes only
    -- when the channel is drained: from an empty buffer the loop goes on behind these payloads, the
    -- buffer is empty again, and the socket has taken exactly the payloads, in their order. So it has
    -- when the channel is then closed. The channel was empty behind the last of them, the writer keeps
    -- what it accepts in order, and no call fails.
    pub write_rounds-drained :
        (items : List Item) (s : b.State)
        → b.buffered s ≡ []
        → IsDrained items
        → ((write_rounds b items s).0 ≡ true)
          × (b.buffered (write_rounds b items s).1 ≡ [])
          × (b.socket (write_rounds b items s).1 ≡ b.socket s ++ concat (payloads_of items))
          × (b.socket (write_task b items s) ≡ b.socket s ++ concat (payloads_of items))
    unfolding write_task
    write_rounds-drained items s e h =
        let (going, all) = write_rounds-goes_on items s in
        let empty = write_rounds-empties items s e h in
        let s' = (write_rounds b items s).1 in
        let more = concat (payloads_of items) in
        let before =
          ap (λ l. (b.socket s ++ l) ++ more) e ∙ ap (λ l. l ++ more) (append-nil (b.socket s)) in
        (
          going,
          empty,
          sym (append-nil (b.socket s')) ∙ ap (λ l. b.socket s' ++ l) (sym empty) ∙ all ∙ before,
          flushed s' ∙ all ∙ before,
        )
