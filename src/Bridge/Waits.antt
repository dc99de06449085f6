-- ===== src/Bridge/Waits.antt =====
-- `Bridge::wait_for` and bridge/callback.rs in ext/prosody/src: a Ruby thread waits for a future by
-- a Ruby queue of its own, onto which the bridge pushes the future's output. An output is a value
-- with the identity of its type, as in `Any`. Several waits may be open at once.
pub mod Fits
pub mod Own
use mathlib.Core.Option
use prosody_rb.Base.{
  ℕ, zero, suc, Bool, Option, none, some, List, [], ◌∷◌, ◌++◌, Result, ok, err, ◌==◌, length,
  if◌then◌else◌, get_elem?, update, remove,
}
use prosody_rb.Ruby.{Error, new, runtime_error, lit}
use prosody_rb.Bridge.{Progress, blocked, done}

-- `Box<dyn Any>`
pub record Any (V : Type 0) : Type 0 where
  pub type_id : ℕ
  pub value : V

-- `DynamicResult`: a box that can be taken out once.
pub data DynamicResult (V : Type 0) : Type 0 where
  held : Any V → DynamicResult V
  taken : DynamicResult V

-- `AsyncCallback`, with the output of the future that it reports.
pub record AsyncCallback (V : Type 0) : Type 0 where
  pub queue : ℕ
  pub output : Any V

-- Ruby's queues, by number, and the callbacks that have not run.
pub record Waits (V : Type 0) : Type 0 where
  pub queues : List (List (DynamicResult V))
  pub callbacks : List (AsyncCallback V)

abbrev pub already_taken : Error
already_taken = new runtime_error (lit "result already taken" ∷ [])

abbrev pub failed_downcast : Error
failed_downcast = new runtime_error (lit "failed to downcast result" ∷ [])

-- What Ruby threads, tasks and the bridge do, in any order.
pub data Event (V : Type 0) : Type 0 where
  begins : Any V → Event V
  resolves : ℕ → Bool → Bool → Event V
  pops : ℕ → Event V

module _ {V : Type 0} where
  -- The first part of `wait_for`: a new queue, and a spawned task that holds a callback on it.
  unfoldable pub begin_wait : Any V → Waits V → Waits V
  begin_wait output w = record {
    queues = w.queues ++ ([] ∷ []);
    callbacks = w.callbacks ++ (record { queue = length w.queues; output = output } ∷ []);
  }

  -- `AsyncCallback::complete`, which consumes the callback. Ruby's `push` may fail.
  unfoldable pub complete : Bool → AsyncCallback V → Waits V → Waits V
  complete pushes c w =
      if pushes
      then record w { queues = update c.queue (λ q. q ++ (held c.output ∷ [])) w.queues }
      else w

  -- The bridge runs the function of the task of one callback, in any order. Where the bridge is
  -- gone, the callback is dropped.
  unfoldable pub resolve : ℕ → Bool → Bool → Waits V → Waits V
  unfolding complete
  resolve i sends pushes w = elim (get_elem? w.callbacks i) [
    | none ↦ w
    | some c ↦
        let rest = record w { callbacks = remove i w.callbacks } in
        if sends then complete pushes c rest else rest
  ]

  -- `take`, then `downcast`.
  unfoldable pub extract : ℕ → DynamicResult V → Result Error V
  extract type_id taken = err already_taken
  extract type_id (held any) = if any.type_id == type_id then ok any.value else err failed_downcast

  abbrev pub pop_first : ℕ → List (DynamicResult V) → Progress (Result Error V)
  pop_first type_id [] = blocked
  pop_first type_id (d ∷ q) = done (extract type_id d)

  abbrev pub drop_first : List (DynamicResult V) → List (DynamicResult V)
  drop_first [] = []
  drop_first (d ∷ q) = q

  -- The last part of `wait_for`, for an output of type `type_id`: pop, which waits, and extract.
  unfoldable pub finish_wait : ℕ → ℕ → Waits V → Progress (Result Error V)
  unfolding extract
  finish_wait queue type_id w = elim (get_elem? w.queues queue) [
    | none ↦ blocked
    | some q ↦ pop_first type_id q
  ]

  -- The queues after that.
  unfoldable pub popped : ℕ → Waits V → Waits V
  popped queue w = record w { queues = update queue drop_first w.queues }

  unfoldable pub step : Event V → Waits V → Waits V
  unfolding begin_wait resolve popped
  step (begins output) w = begin_wait output w
  step (resolves i sends pushes) w = resolve i sends pushes w
  step (pops queue) w = popped queue w

  unfoldable pub steps : List (Event V) → Waits V → Waits V
  unfolding step
  steps [] w = w
  steps (e ∷ events) w = steps events (step e w)

  -- The outputs of the waits that began, by the number of their queue.
  abbrev pub begun : List (Event V) → List (Any V)
  begun [] = []
  begun (begins output ∷ events) = output ∷ begun events
  begun (resolves i sends pushes ∷ events) = begun events
  begun (pops queue ∷ events) = begun events

abbrev pub no_waits : {V : Type 0} → Waits V
no_waits = record { queues = []; callbacks = [] }
