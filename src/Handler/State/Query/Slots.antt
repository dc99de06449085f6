-- ===== src/Handler/State/Query/Slots.antt =====
-- What collecting a keyword hash gives.
use prosody_rb.Base.{
  str_eq, eq_iff, ◌≡◌, refl, String, Bool, true, false, ◌&&◌, ◌||◌, Option, none, some, Result, ok,
  err, List, [], ◌∷◌, if◌then◌else◌, arith, Bool-cases, inl, inr,
}
use prosody_rb.Ruby.{Value, Error}
use prosody_rb.Handler.State.Query.Keywords.{
  Keywords, no_keywords, present, unknown_keyword, set_slot, collect_from, collect,
}

-- The names that a query takes.
pub is_known : Bool → String → Bool
is_known prefix_allowed name =
    str_eq name "from"
    || str_eq name "after"
    || str_eq name "to"
    || str_eq name "before"
    || str_eq name "range"
    || str_eq name "limit"
    || (str_eq name "prefix" && prefix_allowed)

pub first_unknown : Bool → List (String × Value) → Option String
first_unknown prefix_allowed [] = none
first_unknown prefix_allowed ((name, v) ∷ options) =
    if is_known prefix_allowed name then first_unknown prefix_allowed options else some name

-- The value that an option is left with: the last one given under its name, absent if `nil`.
pub last_value : String → Option Value → List (String × Value) → Option Value
last_value slot before [] = before
last_value slot before ((name, v) ∷ options) =
    last_value slot (if str_eq name slot then present v else before) options

pub fill : Keywords → List (String × Value) → Keywords
fill k options = record {
  from = last_value "from" k.from options;
  after = last_value "after" k.after options;
  to = last_value "to" k.to options;
  before = last_value "before" k.before options;
  within = last_value "range" k.within options;
  prefix = last_value "prefix" k.prefix options;
  limit = last_value "limit" k.limit options;
}

-- One round of the loop does to the seven slots what the names say.
set_slot-fill :
    (p : Bool) (k : Keywords) (name : String) (v : Value)
    → set_slot p k name v
      ≡ (if is_known p name then ok (fill k ((name, v) ∷ [])) else err (unknown_keyword name))
unfolding set_slot is_known fill last_value
set_slot-fill p k name v = elim (Bool-cases (str_eq name "from")) [
  | inl e ↦ rw ((eq_iff name "from").0 e) refl
  | inr n0 ↦ elim (Bool-cases (str_eq name "after")) [
    | inl e ↦ rw ((eq_iff name "after").0 e) refl
    | inr n1 ↦ elim (Bool-cases (str_eq name "to")) [
      | inl e ↦ rw ((eq_iff name "to").0 e) refl
      | inr n2 ↦ elim (Bool-cases (str_eq name "before")) [
        | inl e ↦ rw ((eq_iff name "before").0 e) refl
        | inr n3 ↦ elim (Bool-cases (str_eq name "range")) [
          | inl e ↦ rw ((eq_iff name "range").0 e) refl
          | inr n4 ↦ elim (Bool-cases (str_eq name "limit")) [
            | inl e ↦ rw ((eq_iff name "limit").0 e) refl
            | inr n5 ↦ elim (Bool-cases (str_eq name "prefix")) [
              | inl e ↦ rw ((eq_iff name "prefix").0 e) (prefix_case p)
              | inr n ↦ rw (n0, n1, n2, n3, n4, n5, n) refl
            ]
          ]
        ]
      ]
    ]
  ]
]
  where
    prefix_case :
        (p : Bool)
        → set_slot p k "prefix" v ≡ (
            if is_known p "prefix"
            then ok (fill k (("prefix", v) ∷ []))
            else err (unknown_keyword "prefix"))
    prefix_case true = refl
    prefix_case false = refl

fill-cons :
    (k : Keywords) (name : String) (v : Value) (options : List (String × Value))
    → fill (fill k ((name, v) ∷ [])) options ≡ fill k ((name, v) ∷ options)
unfolding fill last_value
fill-cons k name v options = refl

abbrev pub collected : Option String → Keywords → Result Error Keywords
collected none k = ok k
collected (some name) k = err (unknown_keyword name)

collect_from-fill :
    (p : Bool) (k : Keywords) (options : List (String × Value))
    → collect_from p k options ≡ collected (first_unknown p options) (fill k options)
unfolding collect_from first_unknown
collect_from-fill p k [] = unfold fill last_value in refl
collect_from-fill p k ((name, v) ∷ options) = ground (
  arith,
  set_slot-fill p k name v,
  collect_from-fill p (fill k ((name, v) ∷ [])) options,
  fill-cons k name v options,
)

-- Collecting the options fails with the first name that the query does not take, and if there is
-- none it leaves in each of the seven slots the last value given under its name, absent if `nil`.
pub collect-fill :
    (p : Bool) (options : List (String × Value))
    → collect p options ≡ collected (first_unknown p options) (fill no_keywords options)
unfolding collect
collect-fill p options = collect_from-fill p no_keywords options
