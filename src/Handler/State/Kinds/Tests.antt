-- ===== src/Handler/State/Kinds/Tests.antt =====
-- A message deque whose messages are numbered objects.
use prosody_rb.Base.{ℕ, arith, refl, Option, none, some, List, [], ◌∷◌}
use prosody_rb.Ruby.{Value, object, string}
use prosody_rb.Handler.State.Deque.Sample.{vm, view, core, core_laws, vm_Traces}
use prosody_rb.Handler.State.Deque.Lists.{push_back, push_front, pop_back, pop_front}
use prosody_rb.Handler.State.Kinds.Messages.{
  FindsClass, Leaves, returned, refused, message_deque-returned,
}

abbrev try_convert : Value → Option ℕ
try_convert (object n) = some n
try_convert _ = none

finds : FindsClass {W = List ℕ} vm try_convert object view
finds w = (object 3, w, refl, refl)

abbrev stored : List ℕ
stored = 1 ∷ 2 ∷ []

message_deque-returned_example :
    let leaves = Leaves vm core try_convert object view in
    leaves
      (push_back (object 7) ∷ pop_back ∷ [])
      (returned vm core try_convert object view 7)
      stored
    × leaves
        (push_front (object 7) ∷ pop_front ∷ [])
        (returned vm core try_convert object view 7)
        stored
    × leaves (push_back (string "7") ∷ []) (refused vm core try_convert object view) stored
    × leaves (push_front (string "7") ∷ []) (refused vm core try_convert object view) stored
message_deque-returned_example =
    message_deque-returned vm core try_convert object view (some 100) core_laws vm_Traces finds
      (object 7) (string "7") 7 stored refl refl (omega arith)
