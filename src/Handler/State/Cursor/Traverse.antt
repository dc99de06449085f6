-- ===== src/Handler/State/Cursor/Traverse.antt =====
-- `traverse` of lib/prosody/state.rb: a Ruby loop reads a cursor to its end and closes it. The block
-- that the items are given to is a list that they are put in.
use mathlib.Core.List.{map, map-append}
use prosody_rb.Base.{
  ℕ, zero, suc, ◌<◌, ◌≡◌, refl, ap, sym, ◌∙◌, Option, none, some, List, [], ◌∷◌, ◌++◌, Result, ok,
  err, length, length-append, arith,
}
use prosody_rb.Ruby.{Value, Error}
use prosody_rb.Ruby.Effects.{M, ◌>>=◌, pure, collect_effects}
use prosody_rb.Ruby.Vm.{Vm, Carrier}
use prosody_rb.Ruby.Effects.Refines.{Refines, pure-Refines, >>=-Refines, collect_effects-Refines}
use prosody_rb.Handler.State.Handles.{run_state}
use prosody_rb.Handler.State.Handles.Laws.{Traces}
use prosody_rb.Handler.State.Cursor.{
  StateCursor, scan_ready_chunk_size, convert_chunk, next_chunk, close,
}

-- An error of the closing replaces what the loop ended with.
abbrev ensured : {A : Type 0} → Result Error A → Result Error (Unit {0}) → Result Error A
ensured r (err e) = err e
ensured r (ok _) = r

abbrev pub joined : {A : Type 0} → List A → Option (List A) → Option (List A)
joined items none = none
joined items (some rest) = some (items ++ rest)

module _ {W Item : Type 0} (vm : Vm W) (convert : Item → M W Value)
    (cursor : StateCursor W Item) where
  -- The loop. With no fuel left it has not ended, which `none` says.
  unfoldable pub read_chunks : ℕ → M W (Option (List Value))
  unfolding next_chunk
  read_chunks zero = pure none
  read_chunks (suc fuel) = next_chunk vm convert cursor >>= λ chunk. elim chunk [
    | none ↦ pure (some [])
    | some items ↦ read_chunks fuel >>= λ rest. pure (joined items rest)
  ]

  -- The `ensure` closes the cursor whatever the loop's end.
  unfoldable pub traverse : ℕ → M W (Option (List Value))
  unfolding read_chunks close
  traverse fuel w =
      let (r, w1) = read_chunks fuel w in
      let (c, w2) = close vm convert cursor w1 in (ensured r c, w2)

module _ {W Item : Type 0} (left : W → List Item) where
  -- From `w`, the reply and the state after it: the end, or a chunk of the items that are left.
  abbrev pub Replied : W → Option (List Item) → W → Type 0
  Replied w none w' = left w ≡ []
  Replied w (some []) w' = ⊥
  Replied w (some (item ∷ items)) w' = left w ≡ item ∷ items ++ left w'

  -- A cursor of the core over the items that are left. Closing it succeeds.
  pub record IsStream (cursor : StateCursor W Item) : Type 0 where
    pub reads :
        (n : ℕ) (context : Carrier) (w : W)
        → (reply : Option (List Item)) × (w' : W) × (cursor.wait_next_ready_chunk n context w
            ≡ (ok (ok reply), w'))
          × Replied w reply w'
    pub closes : (w : W) → (w' : W) × (cursor.wait_close w ≡ (ok tt, w'))

  module _ (vm : Vm W) (convert : Item → M W Value) (cursor : StateCursor W Item)
      (show : Item → Value) (traces : Traces left vm)
      (converts : (item : Item) → Refines left (convert item) (pure (show item))) where
    abbrev shown : Option (List Item) → Option (List Value)
    shown none = none
    shown (some items) = some (map show items)

    convert_chunk-Refines :
        (reply : Option (List Item))
        → Refines left (convert_chunk vm convert cursor reply) (pure (shown reply))
    convert_chunk-Refines none = pure-Refines left none
    convert_chunk-Refines (some items) =
        >>=-Refines left (collect_effects convert items) (pure (map show items))
          (λ array. pure (some array)) (λ array. pure (some array))
          (collect_effects-Refines left convert show converts items)
          (λ array. pure-Refines left (some array))

    Replied-moved :
        (reply : Option (List Item)) {w w1 w2 w3 : W}
        → left w1 ≡ left w
        → left w3 ≡ left w2
        → Replied w1 reply w2
        → Replied w reply w3
    Replied-moved none same kept h = sym same ∙ h
    Replied-moved (some []) same kept h = absurd h
    Replied-moved (some (item ∷ items)) same kept h =
        sym same ∙ h ∙ ap (λ l. item ∷ items ++ l) (sym kept)

    next_chunk-reads :
        (w : W)
        → IsStream cursor
        → (reply : Option (List Item)) × (w' : W) × (next_chunk vm convert cursor w
            ≡ (ok (shown reply), w'))
          × Replied w reply w'
    unfolding next_chunk run_state
    next_chunk-reads w stream =
        let (context, w1, extracted, same) = traces w in
        let (reply, w2, replied, h) = stream.reads scan_ready_chunk_size context w1 in
        let (w3, converted, kept) = convert_chunk-Refines reply w2 in
        (reply, w3, rw (extracted, replied) converted, Replied-moved reply same kept h)

    -- The rest of the loop, from the reply of the first read.
    read_chunks-step :
        (fuel : ℕ) (w w' : W) (reply : Option (List Item))
        → next_chunk vm convert cursor w ≡ (ok (shown reply), w')
        → Replied w reply w'
        → length (left w) < suc fuel
        → (length (left w') < fuel
            → (w2 : W) × (read_chunks vm convert cursor fuel w'
                ≡ (ok (some (map show (left w'))), w2)))
        → (w2 : W) × (read_chunks vm convert cursor (suc fuel) w
            ≡ (ok (some (map show (left w))), w2))
    unfolding read_chunks
    read_chunks-step fuel w w' none e h enough rest = (w', rw (e, h) refl)
    read_chunks-step fuel w w' (some []) e h enough rest = absurd h
    read_chunks-step fuel w w' (some (item ∷ items)) e h enough rest =
        let size = ap length h ∙ ap suc (length-append items (left w')) in
        let (w2, read) = rest (omega (arith, enough, size)) in
        (w2, rw (e, h, read, map-append) refl)

    read_chunks-reads :
        (fuel : ℕ) (w : W)
        → IsStream cursor
        → length (left w) < fuel
        → (w' : W) × (read_chunks vm convert cursor fuel w ≡ (ok (some (map show (left w))), w'))
    read_chunks-reads zero w stream enough = absurd (omega (arith, enough))
    read_chunks-reads (suc fuel) w stream enough =
        let (reply, w', e, h) = next_chunk-reads w stream in
        read_chunks-step fuel w w' reply e h enough (read_chunks-reads fuel w' stream)

    -- Let the core's cursor give the items that are left in chunks of any size but none, each once
    -- and in order, and then the end; let the tracing context be extracted and every item convert,
    -- to `show` of it. Then reading the cursor as Ruby does ends, within one round more than there
    -- are items; it yields every item once, in order, whatever the chunks; and it closes the
    -- cursor, from the state after the last read.
    pub traverse_complete :
        (fuel : ℕ) (w : W)
        → IsStream cursor
        → length (left w) < fuel
        → (w1 w2 : W) × (cursor.wait_close w1 ≡ (ok tt, w2))
          × (read_chunks vm convert cursor fuel w ≡ (ok (some (map show (left w))), w1))
          × (traverse vm convert cursor fuel w ≡ (ok (some (map show (left w))), w2))
    unfolding traverse close
    traverse_complete fuel w stream enough =
        let (w1, e) = read_chunks-reads fuel w stream enough in
        let (w2, closed) = stream.closes w1 in (w1, w2, closed, e, rw (e, closed) refl)
