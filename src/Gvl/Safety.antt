-- ===== src/Gvl/Safety.antt =====
-- Memory safety of `without_gvl`.
use native.Mathlib.Nat.{suc-add, zero-add}
use mathlib.Core.List.{append_assoc}
use prosody_rb.Base.{ℕ, zero, suc, ◌+◌, ◌≡◌, refl, ap, some, [], ◌∷◌, ◌++◌, length, length-append}
use prosody_rb.Gvl.{
  Run, Content, function, unblock, result, freed, Heap, read, write, caught, anon_func,
  anon_unblock, unblock_times, complete, call_without_gvl, take_unblock, without_gvl,
}

module _ {F U R : Type 0} where
  -- A pointer past `h` is a pointer into what follows it.
  read-append : (h t : Heap F U R) (i : ℕ) → read (h ++ t) (length h + i) ≡ read t i
  read-append [] t i = rw zero-add refl
  read-append (c ∷ h) t i = rw suc-add (read-append h t i)

  write-append :
      (h t : Heap F U R) (i : ℕ) (c : Content F U R)
      → write (h ++ t) (length h + i) c ≡ h ++ write t i c
  write-append [] t i c = rw zero-add refl
  write-append (d ∷ h) t i c = rw suc-add (ap (λ l. d ∷ l) (write-append h t i c))

  read-append_start : (h t : Heap F U R) → read (h ++ t) (length h) ≡ read t 0
  read-append_start [] t = refl
  read-append_start (c ∷ h) t = read-append_start h t

  write-append_start :
      (h t : Heap F U R) (c : Content F U R) → write (h ++ t) (length h) c ≡ h ++ write t 0 c
  write-append_start [] t c = refl
  write-append_start (d ∷ h) t c = ap (λ l. d ∷ l) (write-append_start h t c)

module _ {F U R : Type 0} (call_function : F → Run R) (call_unblock : U → U × Run (Unit {0}))
    (h : Heap F U R) where
  -- The state of the unblocking closure after `n` calls.
  abbrev unblocked : ℕ → U → U
  unblocked zero u = u
  unblocked (suc n) u = unblocked n (call_unblock u).0

  unblock_times_lem :
      (n : ℕ) (c : Content F U R) (u : U) (t : Heap F U R)
      → unblock_times call_function call_unblock n (length h + 1) (h ++ (c ∷ unblock u ∷ t))
        ≡ some (h ++ (c ∷ unblock (unblocked n u) ∷ t))
  unfolding unblock_times anon_unblock
  unblock_times_lem zero c u t = refl
  unblock_times_lem (suc n) c u t =
      rw (read-append h _ 1, write-append h _ 1, anon_unblock, unblock_times)
        (unblock_times_lem n c _ t)

  boxed : F → Content F U R
  boxed f = result (caught (call_function f))

  anon_func_lem :
      (f : F) (u : U)
      → anon_func call_function call_unblock (length h) (h ++ (function f ∷ unblock u ∷ []))
        ≡ some (length h + 2, h ++ (freed ∷ unblock u ∷ boxed f ∷ []))
  unfolding anon_func boxed
  anon_func_lem f u =
      rw (read-append_start h _, write-append_start h _, anon_func)
        (λ i. some (
          length-append h (freed ∷ unblock u ∷ []) i,
          append_assoc h (freed ∷ unblock u ∷ []) (boxed f ∷ []) i,
        ))

  complete_lem :
      (before after : ℕ) (f : F) (u : U)
      → complete call_function call_unblock before after
          (length h)
          (length h + 1)
          (h ++ (function f ∷ unblock u ∷ []))
        ≡ some (caught (call_function f), h ++ (freed ∷ freed ∷ freed ∷ []))
  unfolding complete boxed
  complete_lem before after f u =
      let u' = unblocked before u in
      let u'' = unblocked after u' in
      rw
        (
          unblock_times_lem before (function f) u [],
          anon_func_lem f u',
          unblock_times_lem after freed u' (boxed f ∷ []),
          read-append h _ 2,
          write-append h _ 2,
          read-append h _ 1,
          complete,
          call_without_gvl,
          take_unblock,
        )
        (rw (write-append h _ 2, write-append h _ 1) refl)

  -- Under every schedule of the unblocking closure, the call faults nowhere, gives the closure's
  -- result, or the panic error where it panicked, and leaves the heap as it was but for three
  -- boxes of its own, all of them freed.
  pub without_gvl-safe :
      (before after : ℕ) (func : F) (unblock' : U)
      → without_gvl call_function call_unblock before after func unblock' h
        ≡ some (caught (call_function func), h ++ (freed ∷ freed ∷ freed ∷ []))
  unfolding without_gvl
  without_gvl-safe before after func unblock' =
      rw
        (
          length-append h (function func ∷ []),
          append_assoc h (function func ∷ []) (unblock unblock' ∷ []),
        )
        (complete_lem before after func unblock')
