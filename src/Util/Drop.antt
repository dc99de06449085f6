-- ===== src/Util/Drop.antt =====
-- `ThreadSafeValue` and `RubyDrop` of ext/prosody/src/util.rs: a Ruby value that is shared between
-- threads. Whether the current thread is a Ruby thread is an argument. The bridge is its queue of
-- values whose drop waits for the Ruby thread.
pub mod Once
use prosody_rb.Base.{
  ◌≡◌, refl, ap, sym, ◌∙◌, Bool, true, false, not, List, [], ◌∷◌, ◌++◌, Result, ok, err,
  if◌then◌else◌, arith,
}
use prosody_rb.Bridge.{BridgeError, Channel, send, run_all}

-- The values whose address was unregistered from the garbage collector, and those that leaked, in
-- order.
pub record Heap (V : Type 0) : Type 0 where
  pub unregistered : List V
  pub leaked : List V

module _ {V : Type 0} where
  -- `RubyDrop::drop`
  unfoldable pub ruby_drop : Bool → V → Heap V → Heap V
  ruby_drop on_ruby v h =
      if on_ruby
      then record h { unregistered = h.unregistered ++ (v ∷ []) }
      else record h { leaked = h.leaked ++ (v ∷ []) }

  -- A send that fails gives its function back, which is dropped on this thread.
  abbrev pub after_send :
      Bool → V → Channel V → Heap V → Result BridgeError (Channel V) → Channel V × Heap V
  after_send on_ruby v c h (ok sent) = (sent, h)
  after_send on_ruby v c h (err e) = (c, ruby_drop on_ruby v h)

  -- `ThreadSafeValue::drop`
  unfoldable pub drop : Bool → Bool → V → Channel V × Heap V → Channel V × Heap V
  unfolding ruby_drop
  drop on_ruby receiver_alive v (c, h) =
      if on_ruby
      then (c, ruby_drop on_ruby v h)
      else after_send on_ruby v c h (send receiver_alive v c)

  -- Drops from several threads, in order: for each, whether it runs on a Ruby thread, and its value.
  unfoldable pub drop_all : Bool → List (Bool × V) → Channel V × Heap V → Channel V × Heap V
  unfolding drop
  drop_all receiver_alive [] s = s
  drop_all receiver_alive ((on_ruby, v) ∷ drops) s =
      drop_all receiver_alive drops (drop on_ruby receiver_alive v s)

  -- The values dropped on a Ruby thread, and the others.
  abbrev pub dropped : Bool → List (Bool × V) → List V
  dropped on_ruby [] = []
  dropped true ((true, v) ∷ drops) = v ∷ dropped true drops
  dropped true ((false, v) ∷ drops) = dropped true drops
  dropped false ((true, v) ∷ drops) = dropped false drops
  dropped false ((false, v) ∷ drops) = v ∷ dropped false drops
