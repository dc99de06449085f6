-- ===== src/Bridge/Waits/Own.antt =====
-- Every wait gets the output of its own future.
use mathlib.Core.List.{append_assoc, append-nil}
use prosody_rb.Base.{
  ℕ, ◌≡◌, refl, ap, subst, ◌∙◌, ◌⊎◌, inl, inr, Bool, true, false, some, List, [], ◌∷◌, ◌++◌, ok,
  arith, All, All-append, ◌==◌, Option-cases, get_elem?, remove, get-append, get-append_length,
  All-remove, All-get,
}
use prosody_rb.Bridge.{blocked, done}
use prosody_rb.Bridge.Waits.{
  Any, DynamicResult, held, AsyncCallback, Waits, begin_wait, complete, resolve, extract, pop_first,
  finish_wait, popped, Event, begins, resolves, pops, step, steps, begun, no_waits,
}
use prosody_rb.Bridge.Waits.Fits.{Fits, Fits-append, Fits-push, Fits-drop, Fits-length, Fits-get}

module _ {V : Type 0} where
  abbrev IsCallback : List (Any V) → AsyncCallback V → Type 0
  IsCallback outputs c = get_elem? outputs c.queue ≡ some c.output

  record IsOwn (outputs : List (Any V)) (w : Waits V) : Type 0 where
    queues : Fits w.queues outputs
    callbacks : All (IsCallback outputs) w.callbacks

  callbacks-append :
      (outputs more : List (Any V)) (callbacks : List (AsyncCallback V))
      → All (IsCallback outputs) callbacks
      → All (IsCallback (outputs ++ more)) callbacks
  callbacks-append outputs more [] h = tt
  callbacks-append outputs more (c ∷ callbacks) h =
      (get-append outputs more c.queue h.0, callbacks-append outputs more callbacks h.1)

  begin_wait-IsOwn :
      (outputs : List (Any V)) (output : Any V) (w : Waits V)
      → IsOwn outputs w
      → IsOwn (outputs ++ (output ∷ [])) (begin_wait output w)
  unfolding begin_wait
  begin_wait-IsOwn outputs output w h = record {
    queues = Fits-append w.queues outputs output h.queues;
    callbacks =
        All-append (IsCallback (outputs ++ (output ∷ []))) w.callbacks _
          (callbacks-append outputs (output ∷ []) w.callbacks h.callbacks)
          (
            ap (get_elem? (outputs ++ (output ∷ []))) (Fits-length w.queues outputs h.queues)
                ∙ get-append_length outputs output,
            tt,
          );
  }

  complete-IsOwn :
      (outputs : List (Any V)) (pushes : Bool) (c : AsyncCallback V) (w : Waits V)
      → IsCallback outputs c
      → IsOwn outputs w
      → IsOwn outputs (complete pushes c w)
  unfolding complete
  complete-IsOwn outputs false c w e h = h
  complete-IsOwn outputs true c w e h = record {
    queues = Fits-push c.queue w.queues outputs c.output e h.queues;
    callbacks = h.callbacks;
  }

  removed-IsOwn :
      (outputs : List (Any V)) (i : ℕ) (w : Waits V)
      → IsOwn outputs w
      → IsOwn outputs (record w { callbacks = remove i w.callbacks })
  removed-IsOwn outputs i w h = record {
    queues = h.queues;
    callbacks = All-remove (IsCallback outputs) i w.callbacks h.callbacks;
  }

  resolve-IsOwn :
      (outputs : List (Any V)) (i : ℕ) (sends pushes : Bool) (w : Waits V)
      → IsOwn outputs w
      → IsOwn outputs (resolve i sends pushes w)
  unfolding resolve
  resolve-IsOwn outputs i false pushes w h = elim (Option-cases (get_elem? w.callbacks i)) [
    | inl e ↦ rw (resolve, e) h
    | inr (c, e) ↦ rw (resolve, e) (removed-IsOwn outputs i w h)
  ]
  resolve-IsOwn outputs i true pushes w h = elim (Option-cases (get_elem? w.callbacks i)) [
    | inl e ↦ rw (resolve, e) h
    | inr (c, e) ↦
        let fits = All-get (IsCallback outputs) i w.callbacks h.callbacks e in
        rw (resolve, e) (complete-IsOwn outputs pushes c _ fits (removed-IsOwn outputs i w h))
  ]

  popped-IsOwn :
      (outputs : List (Any V)) (queue : ℕ) (w : Waits V)
      → IsOwn outputs w
      → IsOwn outputs (popped queue w)
  unfolding popped
  popped-IsOwn outputs queue w h = record {
    queues = Fits-drop queue w.queues outputs h.queues;
    callbacks = h.callbacks;
  }

  steps-IsOwn :
      (events : List (Event V)) (outputs : List (Any V)) (w : Waits V)
      → IsOwn outputs w
      → IsOwn (outputs ++ begun events) (steps events w)
  unfolding steps step
  steps-IsOwn [] outputs w h = rw append-nil h
  steps-IsOwn (begins output ∷ events) outputs w h =
      subst (λ l. IsOwn l (steps events (begin_wait output w)))
        (append_assoc outputs (output ∷ []) (begun events))
        (steps-IsOwn events (outputs ++ (output ∷ [])) (begin_wait output w)
          (begin_wait-IsOwn outputs output w h))
  steps-IsOwn (resolves i sends pushes ∷ events) outputs w h =
      steps-IsOwn events outputs (resolve i sends pushes w)
        (resolve-IsOwn outputs i sends pushes w h)
  steps-IsOwn (pops queue ∷ events) outputs w h =
      steps-IsOwn events outputs (popped queue w) (popped-IsOwn outputs queue w h)

  pop_first-own :
      (q : List (DynamicResult V)) (any : Any V)
      → All (λ d. d ≡ held any) q
      → (pop_first any.type_id q ≡ blocked) ⊎ (pop_first any.type_id q ≡ done (ok any.value))
  unfolding extract
  pop_first-own [] any h = inl refl
  pop_first-own (d ∷ q) any h =
      let same : (any.type_id == any.type_id) ≡ true = ground arith in
      inr (rw (h.0, extract, same) refl)

  -- Let threads begin waits, tasks and the bridge report or drop results, and queues be popped, in
  -- any order, from nothing. Of the wait that was the `queue`-th to begin: popping its queue as
  -- `wait_for` does either waits, or gives the output of that wait's own future, never the output
  -- of another wait, a result that was already taken, or one of the wrong type.
  pub wait_for-own :
      (events : List (Event V)) (queue : ℕ) (any : Any V)
      → get_elem? (begun events) queue ≡ some any
      → (finish_wait queue any.type_id (steps events no_waits) ≡ blocked)
        ⊎ (finish_wait queue any.type_id (steps events no_waits) ≡ done (ok any.value))
  unfolding finish_wait
  wait_for-own events queue any e =
      let w : Waits V = steps events no_waits in
      let own : IsOwn (begun events) w =
        steps-IsOwn events [] no_waits (record { queues = tt; callbacks = tt }) in
      elim (Option-cases (get_elem? w.queues queue)) [
        | inl none_eq ↦ inl (rw (finish_wait, none_eq) refl)
        | inr (q, q_eq) ↦
            rw (finish_wait, q_eq)
              (pop_first-own q any (Fits-get queue w.queues (begun events) own.queues e q_eq))
      ]
