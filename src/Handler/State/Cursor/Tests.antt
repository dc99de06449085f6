-- ===== src/Handler/State/Cursor/Tests.antt =====
-- A cursor over a list that gives at most two items at a time.
use prosody_rb.Base.{ℕ, ◌≡◌, refl, Option, none, some, List, [], ◌∷◌, ok, arith}
use prosody_rb.Ruby.{Value, string}
use prosody_rb.Ruby.Effects.{pure}
use prosody_rb.Ruby.Vm.Sample.{sample}
use prosody_rb.Ruby.Vm.{Vm, Carrier, extract_opentelemetry_context}
use prosody_rb.Handler.State.Handles.Laws.{Traces}
use prosody_rb.Handler.State.Cursor.{StateCursor}
use prosody_rb.Handler.State.Cursor.Traverse.{
  read_chunks, traverse, Replied, IsStream, traverse_complete,
}

abbrev W : Type 0
W = List Value

abbrev vm : Vm W
vm = sample (λ w. 0)

abbrev left : W → List Value
left w = w

-- The next chunk, and the items after it.
abbrev next : W → Option (List Value) × W
next [] = (none, [])
next (a ∷ []) = (some (a ∷ []), [])
next (a ∷ b ∷ w) = (some (a ∷ b ∷ []), w)

abbrev cursor : StateCursor W Value
cursor = record {
  wait_next_ready_chunk = λ n. λ context. λ w. (ok (ok (next w).0), (next w).1);
  wait_close = pure tt;
}

abbrev reads :
    (n : ℕ) (context : Carrier) (w : W)
    → (reply : Option (List Value)) × (w' : W) × (cursor.wait_next_ready_chunk n context w
        ≡ (ok (ok reply), w'))
      × Replied left w reply w'
reads n context [] = (none, [], refl, refl)
reads n context (a ∷ []) = (some (a ∷ []), [], refl, refl)
reads n context (a ∷ b ∷ w) = (some (a ∷ b ∷ []), w, refl, refl)

abbrev vm_Traces : Traces left vm
unfolding extract_opentelemetry_context
vm_Traces w = ([], w, refl, refl)

abbrev cursor_IsStream : IsStream left cursor
cursor_IsStream = record { reads = reads; closes = λ w. (w, refl) }

abbrev three : List Value
three = string "a" ∷ string "b" ∷ string "c" ∷ []

traverse_complete_example :
    (w1 w2 : W) × (cursor.wait_close w1 ≡ (ok tt, w2))
    × (read_chunks vm pure cursor 4 three ≡ (ok (some three), w1))
    × (traverse vm pure cursor 4 three ≡ (ok (some three), w2))
traverse_complete_example =
    traverse_complete left vm pure cursor (λ v. v) vm_Traces (λ item. λ w. (w, refl, refl)) 4 three
      cursor_IsStream (omega arith)
