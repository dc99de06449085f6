-- ===== src/Classes/Surface/Registered.antt =====
-- What each `init` and `register` defines, and the whole of the entry point.
use text.Mathlib.Text.{starts_with}
use mathlib.Core.List.{append-nil}
use prosody_rb.Base.{String, pos, ◌<>◌, false, ◌≡◌, refl, sym, subst, List, [], ◌∷◌, ◌++◌}
use prosody_rb.Ruby.{Value}
use prosody_rb.Ruby.Effects.{M, ◌>>=◌, ◌>>◌, pure}
use prosody_rb.Classes.{Method, method, Definer, define_methods, wrapped_class}
use prosody_rb.Classes.Trim.{wrapped_class-path}
use prosody_rb.Classes.State.{
  value_methods, map_methods, set_methods, deque_methods, scan_methods, register_value,
  register_map, register_set, register_deque, register_scan, register,
}
use prosody_rb.Classes.Native.{
  admin_methods, context_methods, vending_methods, message_methods, excise_methods, timer_methods,
  published_value_methods, published_map_methods, published_set_methods, published_deque_methods,
  client_methods, admin_init, bridge_init, context_init, define_vending, message_init, trigger_init,
  published_init, client_init,
}
use prosody_rb.Classes.Init.{handler_init, register_shutdown_at_exit, util_init, init}
use prosody_rb.Classes.Surface.{
  Definition, class_surface, open_surface, state_surface, message_surface, context_surface,
  handler_surface, published_surface, util_surface, surface, a_method, class_itself,
}
use prosody_rb.Classes.Surface.Laws.{
  Defines, IsDefiner, bind-Defines, then-Defines, define_methods-Defines, class-Defines,
}

module _ {W : Type 0} (log : W → List Definition) (named : Value → String) (rb : Definer W)
    (laws : IsDefiner log named rb) where
  abbrev Makes : M W (Unit {0}) → List Definition → Type 0
  Makes m ds = Defines log m ds (λ _. Unit)

  pure-Makes : Makes (pure tt) []
  pure-Makes = record { ends = λ w. (sym (append-nil (log w)), tt) }

  wrapped-Makes :
      (name : String) (methods : List Method)
      → starts_with name "Prosody::" ≡ false
      → Makes
          (wrapped_class rb ("Prosody::" <> name) >>= λ c. define_methods rb c methods)
          (class_surface name methods)
  wrapped-Makes name methods e =
      subst (λ d. Makes (d >>= λ c. define_methods rb c methods) (class_surface name methods))
        (sym (wrapped_class-path rb name e)) (class-Defines log named rb laws name methods)

  register-Makes : Makes (register rb) state_surface
  unfolding register register_value register_map register_set register_deque register_scan
  register-Makes =
      then-Defines log
        (wrapped-Makes "NativeJsonValueState" (value_methods "NativeJsonValueState") refl)
        (then-Defines log
          (wrapped-Makes "NativeMessageValueState" (value_methods "NativeMessageValueState") refl)
          (then-Defines log
            (wrapped-Makes "NativeJsonMapState" (map_methods "NativeJsonMapState") refl)
            (then-Defines log
              (wrapped-Makes "NativeMessageMapState" (map_methods "NativeMessageMapState") refl)
              (then-Defines log (wrapped-Makes "NativeSetState" set_methods refl) (
                then-Defines log
                  (wrapped-Makes "NativeJsonDequeState" (deque_methods "NativeJsonDequeState") refl)
                  (then-Defines log
                    (wrapped-Makes "NativeMessageDequeState"
                      (deque_methods "NativeMessageDequeState") refl)
                    (then-Defines log
                      (wrapped-Makes "NativeJsonDequeScan" (scan_methods "NativeJsonDequeScan")
                        refl)
                      (then-Defines log
                        (wrapped-Makes "NativeJsonMapScan" (scan_methods "NativeJsonMapScan") refl)
                        (then-Defines log
                          (wrapped-Makes "NativeMessageDequeScan"
                            (scan_methods "NativeMessageDequeScan") refl)
                          (then-Defines log
                            (wrapped-Makes "NativeMessageMapScan"
                              (scan_methods "NativeMessageMapScan") refl)
                            (wrapped-Makes "NativeMapKeyScan" (scan_methods "NativeMapKeyScan")
                              refl)))))))))))

  open-Makes :
      (name function : String) (methods : List Method)
      → Makes
          (rb.define_class name >>= λ c.
            rb.define_singleton_method c (method "new" function (pos 1))
            >> define_methods rb c methods)
          (open_surface name function methods)
  open-Makes name function methods =
      let new = method "new" function (pos 1) in
      bind-Defines log (laws.class_law name) (λ c. λ e.
        then-Defines log
          (subst
            (λ n. Makes (rb.define_singleton_method c new) (a_method (class_itself n) new ∷ [])) e
            (laws.singleton_law c new))
          (define_methods-Defines log named rb laws name c methods e))

  context-Makes : Makes (context_init rb) context_surface
  unfolding context_init define_vending
  context-Makes = bind-Defines log (laws.class_law "Context") (λ c. λ e.
      then-Defines log (define_methods-Defines log named rb laws "Context" c context_methods e)
        (define_methods-Defines log named rb laws "Context" c vending_methods e))

  -- A class with its methods, and what comes after them.
  class_then :
      (name : String) (methods : List Method) {k : M W (Unit {0})} {ds : List Definition}
      → Makes k ds
      → Makes
          (rb.define_class name >>= λ c. define_methods rb c methods >> k)
          (class_surface name methods ++ ds)
  class_then name methods next =
      bind-Defines log (laws.class_law name) (λ c.
        λ e. then-Defines log (define_methods-Defines log named rb laws name c methods e) next)

  message-Makes : Makes (message_init rb) message_surface
  unfolding message_init
  message-Makes =
      class_then "Message" message_methods
        (class-Defines log named rb laws "ExciseMessage" excise_methods)

  published-Makes : Makes (published_init rb) published_surface
  unfolding published_init
  published-Makes = class_then "NativePublishedValue" published_value_methods (
      class_then "NativePublishedMap" published_map_methods (
        class_then "NativePublishedSet" published_set_methods
          (class-Defines log named rb laws "NativePublishedDeque" published_deque_methods)))

  handler-Makes : Makes (handler_init rb) handler_surface
  unfolding handler_init trigger_init
  handler-Makes = then-Defines log context-Makes (
      then-Defines log message-Makes
        (then-Defines log register-Makes (class-Defines log named rb laws "Timer" timer_methods)))

  util-Makes : Makes (util_init rb) util_surface
  unfolding util_init register_shutdown_at_exit
  util-Makes = then-Defines log (laws.function_law _) (
      then-Defines log (laws.function_law _)
        (bind-Defines log laws.hook_law (λ _. λ _. pure-Makes)))

  -- Let Ruby's calls each make one definition or fail with no effect. Then the entry point makes all
  -- the classes, methods, module functions and the exit hook of `surface`, in that order; or one of
  -- them fails, the error is raised, and exactly the definitions before it have been made.
  pub init-Makes : Makes (init rb) surface
  unfolding init admin_init bridge_init client_init
  init-Makes = then-Defines log (open-Makes "AdminClient" "AdminClient::new" admin_methods) (
      then-Defines log (bind-Defines log (laws.class_law "DynamicResult") (λ _. λ _. pure-Makes)) (
        then-Defines log handler-Makes (
          then-Defines log published-Makes
            (then-Defines log (open-Makes "Client" "Client::new" client_methods) util-Makes))))
