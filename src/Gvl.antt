-- ===== src/Gvl.antt =====
-- `without_gvl` of ext/prosody/src/gvl.rs: a closure runs without Ruby's global lock. Boxes live on
-- an explicit heap, so a double free or a read of a freed box is a fault, and a box that is never
-- freed shows. `rb_thread_call_without_gvl` is its documented schedule: it calls the closure once,
-- and the unblocking closure any number of times before and after, and then returns.
mod Tests
pub mod Safety
use mathlib.Core.Option
use prosody_rb.Base.{
  ℕ, zero, suc, Bool, true, false, Option, none, some, List, [], ◌∷◌, ◌++◌, Result, ok, err, length,
  if◌then◌else◌,
}

-- `GvlError`
pub data GvlError : Type 0 where
  panicked : GvlError

-- What a closure does when it is called: it returns, or it panics.
pub data Run (R : Type 0) : Type 0 where
  returned : R → Run R
  panics : Run R

-- `catch_unwind(…).map_err(|_| GvlError::Panicked)`
abbrev pub caught : {R : Type 0} → Run R → Result GvlError R
caught (returned r) = ok r
caught panics = err panicked

module _ (F U R : Type 0) where
  -- The content of a box.
  pub data Content : Type 0 where
    function : F → Content
    unblock : U → Content
    result : Result GvlError R → Content
    freed : Content

-- The heap of boxes; a pointer is an index.
abbrev pub Heap : Type 0 → Type 0 → Type 0 → Type 0
Heap F U R = List (Content F U R)

module _ {F U R : Type 0} where
  abbrev pub read : Heap F U R → ℕ → Content F U R
  read [] p = freed
  read (c ∷ h) zero = c
  read (c ∷ h) (suc p) = read h p

  abbrev pub write : Heap F U R → ℕ → Content F U R → Heap F U R
  write [] p c = []
  write (d ∷ h) zero c = c ∷ h
  write (d ∷ h) (suc p) c = d ∷ write h p c

  -- `Box::into_raw(Box::new(c))`: a new box.
  abbrev pub into_raw : Content F U R → Heap F U R → ℕ × Heap F U R
  into_raw c h = (length h, h ++ (c ∷ []))

  -- `Box::from_raw`, whose box is freed when the value has been moved out or dropped. `none` is
  -- undefined behaviour: the box is gone, or it holds another type.
  abbrev pub take_function : ℕ → Heap F U R → Option (F × Heap F U R)
  take_function p h = elim (read h p) [ function f ↦ some (f, write h p freed) | _ ↦ none ]

  abbrev pub take_result : ℕ → Heap F U R → Option (Result GvlError R × Heap F U R)
  take_result p h = elim (read h p) [ result r ↦ some (r, write h p freed) | _ ↦ none ]

  abbrev pub take_unblock : ℕ → Heap F U R → Option (Heap F U R)
  take_unblock p h = elim (read h p) [ unblock u ↦ some (write h p freed) | _ ↦ none ]

  module _ (call_function : F → Run R) (call_unblock : U → U × Run (Unit {0})) where
    -- `anon_func`: the box is consumed, a panic is caught, and the result is boxed.
    unfoldable pub anon_func : ℕ → Heap F U R → Option (ℕ × Heap F U R)
    anon_func p h = elim (take_function p h) [
      | none ↦ none
      | some (f, h') ↦ some (into_raw (result (caught (call_function f))) h')
    ]

    -- `anon_unblock`: the closure is called through the pointer, which stays; a panic is caught
    -- and logged.
    unfoldable pub anon_unblock : ℕ → Heap F U R → Option (Heap F U R)
    anon_unblock p h = elim (read h p) [
      | unblock u ↦ some (write h p (unblock (call_unblock u).0))
      | _ ↦ none
    ]

    unfoldable pub unblock_times : ℕ → ℕ → Heap F U R → Option (Heap F U R)
    unblock_times zero p h = some h
    unblock_times (suc n) p h = elim (anon_unblock p h) [
      | none ↦ none
      | some h' ↦ unblock_times n p h'
    ]

    -- `rb_thread_call_without_gvl`, with `before` and `after` calls to unblock around the call of
    -- the closure.
    unfoldable pub call_without_gvl : ℕ → ℕ → ℕ → ℕ → Heap F U R → Option (ℕ × Heap F U R)
    call_without_gvl before after func_ptr unblock_ptr h =
        elim (unblock_times before unblock_ptr h) [
          | none ↦ none
          | some h1 ↦ elim (anon_func func_ptr h1) [
            | none ↦ none
            | some (raw_result, h2) ↦ elim (unblock_times after unblock_ptr h2) [
              | none ↦ none
              | some h3 ↦ some (raw_result, h3)
            ]
          ]
        ]

    -- What follows the FFI call: the result box and the unblocking closure's box are freed.
    unfoldable pub complete : ℕ → ℕ → ℕ → ℕ → Heap F U R → Option (Result GvlError R × Heap F U R)
    unfolding call_without_gvl
    complete before after func_ptr unblock_ptr h =
        elim (call_without_gvl before after func_ptr unblock_ptr h) [
          | none ↦ none
          | some (raw_result, h') ↦ elim (take_result raw_result h') [
            | none ↦ none
            | some (r, h'') ↦ Option.map (λ h3. (r, h3)) (take_unblock unblock_ptr h'')
          ]
        ]

    unfoldable pub without_gvl :
        ℕ → ℕ → F → U → Heap F U R → Option (Result GvlError R × Heap F U R)
    unfolding complete
    without_gvl before after func unblock' h =
        let (func_ptr, h1) = into_raw (function func) h in
        let (unblock_ptr, h2) = into_raw (unblock unblock') h1 in
        complete before after func_ptr unblock_ptr h2
