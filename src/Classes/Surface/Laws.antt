-- ===== src/Classes/Surface/Laws.antt =====
-- Code that defines classes and methods: what it has defined when it ends, and when it fails.
use mathlib.Core.List.{append_assoc, append-nil}
use prosody_rb.Base.{String, ◌≡◌, ap, sym, subst, ◌∙◌, Result, ok, err, List, [], ◌∷◌, ◌++◌, map}
use prosody_rb.Ruby.{Value, Error}
use prosody_rb.Ruby.Effects.{M, and_then, ◌>>=◌, ◌>>◌}
use prosody_rb.Classes.{Method, Definer, each_of, define_methods}
use prosody_rb.Classes.Surface.{
  Definition, a_class, a_method, an_exit_hook, objects_of, class_itself, root, class_surface,
  methods_of,
}

-- `log` is everything defined so far, in order.
module _ {W : Type 0} (log : W → List Definition) where
  -- A success has made all the definitions; a failure has made the ones before the one that failed,
  -- and nothing after.
  abbrev pub Outcome :
      {A : Type 0} → List Definition → (A → Type 0) → W → Result Error A × W → Type 0
  Outcome ds Q w (ok a, w') = (log w' ≡ log w ++ ds) × Q a
  Outcome ds Q w (err e, w') =
      (before : List Definition) × (d : Definition) × (after : List Definition) × (ds
        ≡ before ++ (d ∷ after))
      × (log w' ≡ log w ++ before)

  pub record Defines {A : Type 0} (m : M W A) (ds : List Definition) (Q : A → Type 0) : Type 0 where
    pub ends : (w : W) → Outcome ds Q w (m w)

  -- `named` tells what class a Ruby object is.
  pub record IsDefiner (named : Value → String) (rb : Definer W) : Type 0 where
    pub class_law :
        (name : String) → Defines (rb.define_class name) (a_class name ∷ []) (λ c. named c ≡ name)
    pub method_law :
        (c : Value) (m : Method)
        → Defines (rb.define_method c m) (a_method (objects_of (named c)) m ∷ []) (λ _. Unit)
    pub singleton_law :
        (c : Value) (m : Method)
        → Defines
            (rb.define_singleton_method c m)
            (a_method (class_itself (named c)) m ∷ [])
            (λ _. Unit)
    pub function_law :
        (m : Method) → Defines (rb.define_module_function m) (a_method root m ∷ []) (λ _. Unit)
    pub hook_law : Defines rb.at_exit (an_exit_hook ∷ []) (λ _. Unit)

  -- A computation that starts where another has ended.
  after-Outcome :
      {A : Type 0} (ds es : List Definition) (Q : A → Type 0) (w w1 : W) (r : Result Error A × W)
      → log w1 ≡ log w ++ ds
      → Outcome es Q w1 r
      → Outcome (ds ++ es) Q w r
  after-Outcome ds es Q w w1 (ok a, w') start (e, q) =
      (e ∙ ap (λ l. l ++ es) start ∙ append_assoc (log w) ds es, q)
  after-Outcome ds es Q w w1 (err x, w') start (before, d, after, cut, e) = (
    ds ++ before,
    d,
    after,
    ap (λ l. ds ++ l) cut ∙ sym (append_assoc ds before (d ∷ after)),
    e ∙ ap (λ l. l ++ before) start ∙ append_assoc (log w) ds before,
  )

  and_then-Outcome :
      {A B : Type 0} (ds es : List Definition) (Q : A → Type 0) (R : B → Type 0) (w : W)
      (r : Result Error A × W) (k : A → M W B)
      → Outcome ds Q w r
      → ((a : A) → Q a → Defines (k a) es R)
      → Outcome (ds ++ es) R w (and_then r k)
  and_then-Outcome ds es Q R w (ok a, w1) k (e, q) next =
      after-Outcome ds es R w w1 (k a w1) e ((next a q).ends w1)
  and_then-Outcome ds es Q R w (err x, w1) k (before, d, after, cut, e) next =
      (before, d, after ++ es, ap (λ l. l ++ es) cut ∙ append_assoc before (d ∷ after) es, e)

  pub bind-Defines :
      {A B : Type 0} {m : M W A} {k : A → M W B} {ds es : List Definition} {Q : A → Type 0}
      {R : B → Type 0}
      → Defines m ds Q
      → ((a : A) → Q a → Defines (k a) es R)
      → Defines (m >>= k) (ds ++ es) R
  bind-Defines {m = m} {k = k} {ds = ds} {es = es} {Q = Q} {R = R} first next = record {
    ends = λ w. and_then-Outcome ds es Q R w (m w) k (first.ends w) next;
  }

  pub then-Defines :
      {A B : Type 0} {m : M W A} {k : M W B} {ds es : List Definition} {Q : A → Type 0}
      {R : B → Type 0}
      → Defines m ds Q
      → Defines k es R
      → Defines (m >> k) (ds ++ es) R
  then-Defines first next = bind-Defines first (λ _. λ _. next)

  each_of-Defines :
      {A : Type 0} (f : A → M W (Unit {0})) (g : A → Definition)
      → ((a : A) → Defines (f a) (g a ∷ []) (λ _. Unit))
      → (l : List A) → Defines (each_of f l) (map g l) (λ _. Unit)
  each_of-Defines f g h [] = record { ends = λ w. (sym (append-nil (log w)), tt) }
  each_of-Defines f g h (a ∷ l) = then-Defines (h a) (each_of-Defines f g h l)

  module _ (named : Value → String) (rb : Definer W) (laws : IsDefiner named rb) where
    pub define_methods-Defines :
        (name : String) (c : Value) (methods : List Method)
        → named c ≡ name
        → Defines (define_methods rb c methods) (methods_of name methods) (λ _. Unit)
    define_methods-Defines name c methods e =
        subst (λ n. Defines (define_methods rb c methods) (methods_of n methods) (λ _. Unit)) e
          (each_of-Defines (rb.define_method c) (a_method (objects_of (named c)))
            (laws.method_law c) methods)

    pub class-Defines :
        (name : String) (methods : List Method)
        → Defines
            (rb.define_class name >>= λ c. define_methods rb c methods)
            (class_surface name methods)
            (λ _. Unit)
    class-Defines name methods =
        bind-Defines (laws.class_law name) (λ c. define_methods-Defines name c methods)
