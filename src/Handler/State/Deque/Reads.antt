-- ===== src/Handler/State/Deque/Reads.antt =====
-- The reads by index of the Ruby library, over a native handle that is a list.
use prosody_rb.Base.{
  ℕ, zero, suc, ◌-◌, ◌^◌, ◌<◌, ℤ, pos, negsuc, String, ltb, Bool-cases, ◌≡◌, ◌≢◌, refl, sym, ap,
  ◌∙◌, inl, inr, Option, none, some, List, [], ◌∷◌, Result, ok, err, length, get_elem?, ◌≤◌, arith,
}
use prosody_rb.Ruby.{
  Value, nil, boolean, integer, string, range, object, Error, new, index_error, lit, signed,
}
use prosody_rb.Ruby.Effects.{M}
use prosody_rb.Ruby.Effects.Refines.{Ends, Refines}
use prosody_rb.Handler.State.Handles.Laws.{does}
use prosody_rb.Handler.State.Deque.Lists.{last}
use prosody_rb.Handler.State.Deque.Library.{at_negative, get, absent, fetched, fetch}
use prosody_rb.Handler.State.Deque.Indexed.{
  reversed, at, last-reversed, get-reversed, get_reversed-outside,
}

-- A usize, or any number from the back.
abbrev pub IsIndex : ℤ → Type 0
IsIndex (pos n) = n < 2 ^ 64
IsIndex (negsuc m) = Unit

-- What `fetch` gives, with at most one default and no block.
abbrev pub fetched_item :
    {Item : Type 0} → (Item → Value) → ℤ → Option Value → Option Item → Result Error Value
fetched_item show i default (some item) = ok (show item)
fetched_item show i (some value) none = ok value
fetched_item show i none none =
    err (new index_error (lit "index " ∷ signed i ∷ lit " outside deque bounds" ∷ []))

abbrev pub given : Option Value → List Value
given none = []
given (some value) = value ∷ []

abbrev pub shown : {Item : Type 0} → (Item → Value) → Option Item → Value
shown show none = nil
shown show (some item) = show item

module _ {W Item : Type 0} (view : W → List Item) (show : Item → Value) (len : M W ℕ)
    (native_get : ℤ → M W Value) (peek_back : M W Value) (warn : String → M W (Unit {0})) where
  -- The native methods read the list `view w`.
  pub record IsIndexed : Type 0 where
    pub len_law : Refines view len (does (λ l. (length l, l)))
    pub get_law :
        (n : ℕ)
        → n < 2 ^ 64
        → Refines view (native_get (pos n)) (does (λ l. (shown show (get_elem? l n), l)))
    pub back_law : Refines view peek_back (does (λ l. (shown show (last l), l)))

  module _ (laws : IsIndexed) where
    at_negative-at :
        (m : ℕ) (w : W)
        → length (view w) < 2 ^ 64
        → Ends view
            (at_negative len native_get peek_back warn m w)
            (ok (shown show (get_elem? (reversed (view w)) m)), view w)
    unfolding at_negative
    at_negative-at zero w small =
        let (w1, e, v) = laws.back_law w in
        (w1, e ∙ ap (λ o. (ok (shown show o), w1)) (last-reversed (view w)), v)
    at_negative-at (suc m) w small =
        let (w1, e, v) = laws.len_law w in
        elim (Bool-cases (ltb (suc m) (length (view w)))) [
          | inl inside ↦
              let l = view w in
              let few : suc m < length l = ground arith in
              let (w2, e2, v2) = laws.get_law (length l - suc (suc m)) (omega arith) w1 in
              let item : get_elem? (view w1) (length l - suc (suc m))
                  ≡ get_elem? (reversed l) (suc m) =
                ap (λ k. get_elem? k (length l - suc (suc m))) v ∙ get-reversed l (suc m) few in
              rw (e, inside) (w2, e2 ∙ ap (λ o. (ok (shown show o), w2)) item, v2 ∙ v)
          | inr outside ↦
              let beyond : length (view w) ≤ suc m = ground arith in
              let nothing = get_reversed-outside (view w) (suc m) beyond in
              rw (e, outside) (w1, ap (λ o. (ok (shown show o), w1)) (sym nothing), v)
        ]

    pub get-at :
        (i : ℤ) (w : W)
        → length (view w) < 2 ^ 64
        → IsIndex i
        → Ends view
            (get len native_get peek_back warn (integer i) w)
            (ok (shown show (at (view w) i)), view w)
    unfolding get
    get-at (pos n) w small index = laws.get_law n index w
    get-at (negsuc m) w small index = at_negative-at m w small

    fetched-real :
        (i : ℤ) (default : List Value) (value : Value) (w : W)
        → value ≢ nil
        → fetched len native_get peek_back warn i default none value w ≡ (ok value, w)
    unfolding fetched
    fetched-real i default nil w real = absurd (real refl)
    fetched-real i default (boolean b) w real = refl
    fetched-real i default (integer n) w real = refl
    fetched-real i default (string s) w real = refl
    fetched-real i default (range a b c) w real = refl
    fetched-real i default (object n) w real = refl

    fetched-at :
        (i : ℤ) (default : Option Value) (item : Option Item) (w : W)
        → ((item : Item) → show item ≢ nil)
        → fetched len native_get peek_back warn i (given default) none (shown show item) w
          ≡ (fetched_item show i default item, w)
    unfolding fetched absent
    fetched-at i none none w real = refl
    fetched-at i (some value) none w real = refl
    fetched-at i default (some item) w real =
        fetched-real i (given default) (show item) w (real item)

    pub fetch-at :
        (i : ℤ) (default : Option Value) (w : W)
        → length (view w) < 2 ^ 64
        → IsIndex i
        → ((item : Item) → show item ≢ nil)
        → Ends view
            (fetch len native_get peek_back warn (integer i) (given default) none w)
            (fetched_item show i default (at (view w) i), view w)
    unfolding fetch
    fetch-at i none w small index real =
        let (w1, e, v) = get-at i w small index in
        (w1, rw e (fetched-at i none (at (view w) i) w1 real), v)
    fetch-at i (some value) w small index real =
        let (w1, e, v) = get-at i w small index in
        (w1, rw e (fetched-at i (some value) (at (view w) i) w1 real), v)
