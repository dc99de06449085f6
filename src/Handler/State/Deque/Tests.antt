-- ===== src/Handler/State/Deque/Tests.antt =====
-- A deque handle over a core that keeps a list of values.
use prosody_rb.Base.{
  ℕ, ◌^◌, ◌<◌, ℤ, pos, negsuc, String, true, ltb, ◌≢◌, if◌then◌else◌, arith, ◌≡◌, refl, Option,
  none, some, List, [], ◌∷◌, Result, ok, err,
}
use prosody_rb.Handler.State.Deque.Library.{get, fetch}
use prosody_rb.Handler.State.Deque.Reads.{shown}
use prosody_rb.Handler.State.Deque.Handle.{handle_get, get-fetch-at}
use prosody_rb.Handler.State.Deque.{deque_len, deque_peek_back}
use prosody_rb.Ruby.Effects.Refines.{Ends}
use prosody_rb.Ruby.{argument_error, integer, Value, nil, string, Error, new, transient_state_error}
use prosody_rb.Ruby.Effects.{M, pure, lift}
use prosody_rb.Ruby.Effects.Refines.{session}
use prosody_rb.Handler.State.Deque.Lists.{
  Call, len, push_back, push_front, pop_back, count, value, nothing, list_call, deque_call,
}
use prosody_rb.Handler.State.Deque.Sample.{vm, view, core, core_laws, AnyItem, vm_Traces}
use prosody_rb.Handler.State.Deque.Refines.{deque_call-Refines-lists}

-- Strings convert, and nothing else does.
abbrev convert : Value → Result Error Value
convert (string s) = ok (string s)
convert _ = err (new transient_state_error [])

abbrev show : Option Value → Value
show none = nil
show (some v) = v

abbrev calls : List Call
calls = push_back (string "b") ∷ push_front (string "a") ∷ push_back nil ∷ pop_back ∷ len ∷ []

deque_call-Refines-lists_example :
    let r = session (deque_call vm core (λ v. lift (convert v)) (λ o. pure (show o))) calls [] in
    let s = session (list_call (some 100) convert show) calls [] in (r.0 ≡ s.0) × (r.1 ≡ s.1)
deque_call-Refines-lists_example =
    deque_call-Refines-lists vm core (λ v. lift (convert v)) (λ o. pure (show o)) view convert show
      (some 100) AnyItem core_laws vm_Traces (λ v. λ w. (w, refl, refl))
      (λ item. λ w. (w, refl, refl)) calls []
      (λ i. λ e. tt, (λ i. λ e. tt, (λ i. λ e. tt, (tt, (tt, tt)))))

list_calls :
    (session (list_call (some 100) convert show) calls []).0
    ≡ ok nothing
      ∷ ok nothing
      ∷ err (new transient_state_error [])
      ∷ ok (value (string "b"))
      ∷ ok (count 1)
      ∷ []
list_calls = refl

-- Strings as they are, in a list of strings.
abbrev usize_of : ℤ → Result Error ℕ
usize_of (pos n) = if ltb n (2 ^ 64) then ok n else err (new argument_error [])
usize_of (negsuc m) = err (new argument_error [])

usize_of-small : (n : ℕ) → n < 2 ^ 64 → usize_of (pos n) ≡ ok n
usize_of-small n small = let fits : ltb n (2 ^ 64) ≡ true = ground arith in rw fits refl

string-ne-nil : (s : String) → string s ≢ nil
string-ne-nil s e = cc

abbrev words : List String
words = "a" ∷ "b" ∷ "c" ∷ []

abbrev no_warning : String → M (List String) (Unit {0})
no_warning text = pure tt

get-fetch-at_example :
    Ends view
      (get
        (deque_len vm core (λ v. pure "") (λ o. pure (shown string o)))
        (handle_get vm core (λ v. pure "") (λ o. pure (shown string o)) usize_of)
        (deque_peek_back vm core (λ v. pure "") (λ o. pure (shown string o)))
        no_warning
        (integer (negsuc 1))
        words)
      (ok (string "b"), words)
    × Ends view
        (fetch
          (deque_len vm core (λ v. pure "") (λ o. pure (shown string o)))
          (handle_get vm core (λ v. pure "") (λ o. pure (shown string o)) usize_of)
          (deque_peek_back vm core (λ v. pure "") (λ o. pure (shown string o)))
          no_warning
          (integer (negsuc 1))
          []
          none
          words)
        (ok (string "b"), words)
get-fetch-at_example =
    get-fetch-at vm core (λ v. pure "") (λ o. pure (shown string o)) usize_of view string core_laws
      vm_Traces (λ item. λ w. (w, refl, refl)) no_warning usize_of-small (negsuc 1) none words
      (omega arith) tt string-ne-nil
