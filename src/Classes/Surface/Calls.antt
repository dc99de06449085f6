-- ===== src/Classes/Surface/Calls.antt =====
-- The calls of native methods that the Ruby library makes and documents, and what Ruby finds for
-- them in the classes as they are defined.
use prosody_rb.Base.{
  ℕ, ℤ, pos, negsuc, String, Bool, true, false, ◌&&◌, str_eq, ◌==◌, leb, Option, none, some, List,
  [], ◌∷◌, ◌++◌, if◌then◌else◌,
}
use prosody_rb.Classes.{Method}
use prosody_rb.Classes.Surface.{Target, objects_of, class_itself, root, Definition, a_method}

abbrev same_target : Target → Target → Bool
same_target (objects_of a) (objects_of b) = str_eq a b
same_target (class_itself a) (class_itself b) = str_eq a b
same_target root root = true
same_target _ _ = false

-- What Ruby runs for a name: a later definition replaces an earlier one.
abbrev later : Option Method → Option Method → Option Method
later none m = m
later (some n) m = some n

abbrev defines : Definition → Target → String → Option Method
defines (a_method t' m) t name = if same_target t' t && str_eq m.name name then some m else none
defines _ t name = none

abbrev pub found : List Definition → Target → String → Option Method
found [] t name = none
found (d ∷ ds) t name = later (found ds t name) (defines d t name)

pub record Call : Type 0 where
  pub target : Target
  pub name : String
  pub count : ℕ

abbrev call : Target → String → ℕ → Call
call target name count = record { target = target; name = name; count = count }

-- Ruby's check of the number of arguments; -1 takes any number.
abbrev takes : ℤ → ℕ → Bool
takes (pos n) count = n == count
takes (negsuc n) count = leb n count

abbrev found_takes : Option Method → ℕ → Bool
found_takes none count = false
found_takes (some m) count = takes m.arity count

abbrev pub is_accepted : List Definition → Call → Bool
is_accepted ds c = found_takes (found ds c.target c.name) c.count

abbrev found_is : Option Method → Method → Bool
found_is none m = false
found_is (some n) m = str_eq n.function m.function

-- A definition that no other one replaces.
abbrev pub stands : List Definition → Definition → Bool
stands ds (a_method t m) = found_is (found ds t m.name) m
stands ds _ = true

abbrev pub all_of : {A : Type 0} → (A → Bool) → List A → Bool
all_of p [] = true
all_of p (a ∷ l) = p a && all_of p l

-- lib/prosody/state.rb and value.rb, map.rb, set.rb and deque.rb of lib/prosody/state: what a handle
-- asks of a native object of `class`.
abbrev value_calls : String → List Call
value_calls class =
    call (objects_of class) "get" 0
    ∷ call (objects_of class) "set" 1
    ∷ call (objects_of class) "clear" 0
    ∷ call (objects_of class) "commit" 0
    ∷ call (objects_of class) "rollback" 0
    ∷ []

abbrev map_calls : String → List Call
map_calls class =
    call (objects_of class) "get" 1
    ∷ call (objects_of class) "get_many" 1
    ∷ call (objects_of class) "contains_key" 1
    ∷ call (objects_of class) "contains_many" 1
    ∷ call (objects_of class) "is_empty" 0
    ∷ call (objects_of class) "set" 2
    ∷ call (objects_of class) "remove" 1
    ∷ call (objects_of class) "clear" 0
    ∷ call (objects_of class) "scan" 2
    ∷ call (objects_of class) "keys" 2
    ∷ call (objects_of class) "commit" 0
    ∷ call (objects_of class) "rollback" 0
    ∷ []

abbrev set_calls : String → List Call
set_calls class =
    call (objects_of class) "insert" 1
    ∷ call (objects_of class) "remove" 1
    ∷ call (objects_of class) "contains" 1
    ∷ call (objects_of class) "contains_many" 1
    ∷ call (objects_of class) "is_empty" 0
    ∷ call (objects_of class) "clear" 0
    ∷ call (objects_of class) "keys" 2
    ∷ call (objects_of class) "commit" 0
    ∷ call (objects_of class) "rollback" 0
    ∷ []

abbrev deque_calls : String → List Call
deque_calls class =
    call (objects_of class) "push_back" 1
    ∷ call (objects_of class) "push_front" 1
    ∷ call (objects_of class) "pop_back" 0
    ∷ call (objects_of class) "pop_front" 0
    ∷ call (objects_of class) "len" 0
    ∷ call (objects_of class) "is_empty" 0
    ∷ call (objects_of class) "clear" 0
    ∷ call (objects_of class) "get" 1
    ∷ call (objects_of class) "peek_front" 0
    ∷ call (objects_of class) "peek_back" 0
    ∷ call (objects_of class) "scan" 2
    ∷ call (objects_of class) "commit" 0
    ∷ call (objects_of class) "rollback" 0
    ∷ []

abbrev scan_calls : String → List Call
scan_calls class = call (objects_of class) "next_chunk" 0 ∷ call (objects_of class) "close" 0 ∷ []

-- What the readers of published state ask.
abbrev published_calls : List Call
published_calls =
    call (objects_of "NativePublishedValue") "get" 1
    ∷ call (objects_of "NativePublishedMap") "get" 2
    ∷ call (objects_of "NativePublishedMap") "get_many" 2
    ∷ call (objects_of "NativePublishedMap") "contains_key" 2
    ∷ call (objects_of "NativePublishedMap") "contains_many" 2
    ∷ call (objects_of "NativePublishedMap") "is_empty" 1
    ∷ call (objects_of "NativePublishedMap") "scan" 3
    ∷ call (objects_of "NativePublishedMap") "keys" 3
    ∷ call (objects_of "NativePublishedSet") "contains" 2
    ∷ call (objects_of "NativePublishedSet") "contains_many" 2
    ∷ call (objects_of "NativePublishedSet") "is_empty" 1
    ∷ call (objects_of "NativePublishedSet") "keys" 3
    ∷ call (objects_of "NativePublishedDeque") "get" 2
    ∷ call (objects_of "NativePublishedDeque") "length" 1
    ∷ call (objects_of "NativePublishedDeque") "is_empty" 1
    ∷ call (objects_of "NativePublishedDeque") "peek_front" 1
    ∷ call (objects_of "NativePublishedDeque") "peek_back" 1
    ∷ call (objects_of "NativePublishedDeque") "scan" 3
    ∷ []

-- The context and the client: the documented methods in lib/prosody/native_stubs, what
-- `Vending#state` and `Reading#state` send, and the two requests.
abbrev context_calls : List Call
context_calls =
    call (objects_of "Context") "should_cancel?" 0
    ∷ call (objects_of "Context") "demand" 0
    ∷ call (objects_of "Context") "on_cancel" 0
    ∷ call (objects_of "Context") "clear_scheduled" 0
    ∷ call (objects_of "Context") "scheduled" 0
    ∷ call (objects_of "Context") "schedule" 1
    ∷ call (objects_of "Context") "clear_and_schedule" 1
    ∷ call (objects_of "Context") "unschedule" 1
    ∷ call (objects_of "Context") "value_state" 1
    ∷ call (objects_of "Context") "map_state" 1
    ∷ call (objects_of "Context") "set_state" 1
    ∷ call (objects_of "Context") "deque_state" 1
    ∷ call (objects_of "Context") "message_value_state" 1
    ∷ call (objects_of "Context") "message_map_state" 1
    ∷ call (objects_of "Context") "message_deque_state" 1
    ∷ []

abbrev client_calls : List Call
client_calls =
    call (class_itself "Client") "new" 1
    ∷ call (objects_of "Client") "consumer_state" 0
    ∷ call (objects_of "Client") "assigned_partition_count" 0
    ∷ call (objects_of "Client") "stalled?" 0
    ∷ call (objects_of "Client") "send_message" 3
    ∷ call (objects_of "Client") "excise" 2
    ∷ call (objects_of "Client") "subscribe" 1
    ∷ call (objects_of "Client") "unsubscribe" 0
    ∷ call (objects_of "Client") "shutdown" 0
    ∷ call (objects_of "Client") "source_system" 0
    ∷ call (objects_of "Client") "native_request" 1
    ∷ call (objects_of "Client") "native_request_excise" 1
    ∷ call (objects_of "Client") "published_value" 3
    ∷ call (objects_of "Client") "published_map" 3
    ∷ call (objects_of "Client") "published_set" 3
    ∷ call (objects_of "Client") "published_deque" 3
    ∷ []

-- The administration client and the telemetry, as README.md and sig/prosody.rbs document them.
abbrev documented_calls : List Call
documented_calls =
    call (class_itself "AdminClient") "new" 1
    ∷ call (objects_of "AdminClient") "create_topic" 3
    ∷ call (objects_of "AdminClient") "create_topic" 4
    ∷ call (objects_of "AdminClient") "delete_topic" 1
    ∷ call root "flush_telemetry" 0
    ∷ call root "shutdown_telemetry" 0
    ∷ []

abbrev record_calls : String → List Call
record_calls class =
    call (objects_of class) "topic" 0
    ∷ call (objects_of class) "partition" 0
    ∷ call (objects_of class) "offset" 0
    ∷ call (objects_of class) "key" 0
    ∷ call (objects_of class) "timestamp" 0
    ∷ call (objects_of class) "source_system" 0
    ∷ call (objects_of class) "response_requested?" 0
    ∷ []

abbrev pub library_calls : List Call
library_calls =
    value_calls "NativeJsonValueState"
    ++ (value_calls "NativeMessageValueState"
        ++ (map_calls "NativeJsonMapState"
            ++ (map_calls "NativeMessageMapState"
                ++ (set_calls "NativeSetState"
                    ++ (deque_calls "NativeJsonDequeState"
                        ++ (deque_calls "NativeMessageDequeState"
                            ++ (scan_calls "NativeJsonDequeScan"
                                ++ (scan_calls "NativeJsonMapScan"
                                    ++ (scan_calls "NativeMessageDequeScan"
                                        ++ (scan_calls "NativeMessageMapScan"
                                            ++ (scan_calls "NativeMapKeyScan"
                                                ++ (published_calls
                                                    ++ (documented_calls
                                                        ++ (context_calls
                                                            ++ (client_calls
                                                            ++ (record_calls "Message"
                                                            ++ (record_calls "ExciseMessage"
                                                            ++ (call (objects_of "Message")
                                                            "payload" 0
                                                            ∷ call (objects_of "Timer") "key" 0
                                                            ∷ call (objects_of "Timer") "time" 0
                                                            ∷ []))))))))))))))))))
