-- ===== src/Classes/Surface.antt =====
-- What a Ruby that has loaded the extension has: its classes and methods, as a row of definitions,
-- and what a start that fails leaves.
pub mod Laws
pub mod Registered
pub mod Calls
pub mod Served
use prosody_rb.Base.{String, pos, List, [], ◌∷◌, ◌++◌, map}
use prosody_rb.Classes.{Method, method}
use prosody_rb.Classes.State.{value_methods, map_methods, set_methods, deque_methods, scan_methods}
use prosody_rb.Classes.Native.{
  admin_methods, context_methods, vending_methods, message_methods, excise_methods, timer_methods,
  published_value_methods, published_map_methods, published_set_methods, published_deque_methods,
  client_methods,
}

-- Whose method it is: of a class's objects, of a class itself, or of the module `Prosody`.
pub data Target : Type 0 where
  objects_of class_itself : String → Target
  root : Target

pub data Definition : Type 0 where
  a_class : String → Definition
  a_method : Target → Method → Definition
  an_exit_hook : Definition

abbrev pub methods_of : String → List Method → List Definition
methods_of name = map (a_method (objects_of name))

abbrev pub class_surface : String → List Method → List Definition
class_surface name methods = a_class name ∷ methods_of name methods

-- A class that Ruby can make objects of.
abbrev pub open_surface : String → String → List Method → List Definition
open_surface name function methods =
    a_class name
    ∷ a_method (class_itself name) (method "new" function (pos 1))
    ∷ methods_of name methods

abbrev pub state_surface : List Definition
state_surface =
    class_surface "NativeJsonValueState" (value_methods "NativeJsonValueState")
    ++ (class_surface "NativeMessageValueState" (value_methods "NativeMessageValueState")
        ++ (class_surface "NativeJsonMapState" (map_methods "NativeJsonMapState")
            ++ (class_surface "NativeMessageMapState" (map_methods "NativeMessageMapState")
                ++ (class_surface "NativeSetState" set_methods
                    ++ (class_surface "NativeJsonDequeState" (deque_methods "NativeJsonDequeState")
                        ++ (class_surface "NativeMessageDequeState"
                              (deque_methods "NativeMessageDequeState")
                            ++ (class_surface "NativeJsonDequeScan"
                                  (scan_methods "NativeJsonDequeScan")
                                ++ (class_surface "NativeJsonMapScan"
                                      (scan_methods "NativeJsonMapScan")
                                    ++ (class_surface "NativeMessageDequeScan"
                                          (scan_methods "NativeMessageDequeScan")
                                        ++ (class_surface "NativeMessageMapScan"
                                              (scan_methods "NativeMessageMapScan")
                                            ++ class_surface "NativeMapKeyScan"
                                                (scan_methods "NativeMapKeyScan")))))))))))

abbrev pub message_surface : List Definition
message_surface =
    class_surface "Message" message_methods ++ class_surface "ExciseMessage" excise_methods

abbrev pub context_surface : List Definition
context_surface = class_surface "Context" context_methods ++ methods_of "Context" vending_methods

abbrev pub handler_surface : List Definition
handler_surface =
    context_surface ++ (message_surface ++ (state_surface ++ class_surface "Timer" timer_methods))

abbrev pub published_surface : List Definition
published_surface =
    class_surface "NativePublishedValue" published_value_methods
    ++ (class_surface "NativePublishedMap" published_map_methods
        ++ (class_surface "NativePublishedSet" published_set_methods
            ++ class_surface "NativePublishedDeque" published_deque_methods))

abbrev pub util_surface : List Definition
util_surface =
    a_method root (method "flush_telemetry" "flush_telemetry" (pos 0))
    ∷ a_method root (method "shutdown_telemetry" "shutdown_telemetry" (pos 0))
    ∷ an_exit_hook
    ∷ []

abbrev pub surface : List Definition
surface =
    open_surface "AdminClient" "AdminClient::new" admin_methods
    ++ (class_surface "DynamicResult" []
        ++ (handler_surface
            ++ (published_surface
                ++ (open_surface "Client" "Client::new" client_methods ++ util_surface))))
