-- ===== src/Client/Config/Collections.antt =====
-- Which keyed-state collections are accepted, and what is registered.
use prosody_rb.Base.{
  traverse_option, ok-injective, ◌≢◌, Option-cases, str_eq, eq_iff, ℕ, suc, ◌≡◌, refl, sym, ap, ◌∙◌,
  ◌↔◌, ◌⊎◌, inl, inr, String, false, Option, none, some, List, [], ◌∷◌, ◌++◌, map as list_map,
  Result, ok, err, ◌>>=◌, arith, IsOk, Bool-cases, >>=-eq-ok,
}
use mathlib.Core.List.{map-append, append-nil, append_assoc}
use mathlib.Core.Bool.{true≢false}
use prosody_rb.Ruby.{Message}
use prosody_rb.Client.Config.Native.{StateCollectionConfig}
use prosody_rb.Client.Config.State.Descriptors.{
  CollectionKind, value, map, set, deque, CollectionPayload, json, message, bad_kind, bad_payload,
  parse_kind, parse_payload, check_keyset_limit, check_capacity, descriptor, with_def, Descriptor,
  state_collection, register_from,
}

abbrev IsPayload : Option String → Type 0
IsPayload p = (p ≡ some "json") ⊎ (p ≡ some "message")

-- The collections that the documentation allows, by kind: a payload for all but sets, a keyset
-- limit for maps and sets, and a capacity for deques.
abbrev pub IsCollection : StateCollectionConfig → Type 0
IsCollection c =
    ((c.kind ≡ "value") × IsPayload c.payload × (c.keyset_limit ≡ none) × (c.capacity ≡ none))
    ⊎ ((c.kind ≡ "map") × IsPayload c.payload × (c.capacity ≡ none))
    ⊎ ((c.kind ≡ "set") × (c.payload ≡ none) × (c.capacity ≡ none))
    ⊎ ((c.kind ≡ "deque") × IsPayload c.payload × (c.keyset_limit ≡ none))

other : (s t : String) → str_eq s t ≡ false → s ≢ t
other s t n e = absurd (true≢false ((sym ((eq_iff s t).1 e)) ∙ n))

apart : (s t u : String) → str_eq t u ≡ false → s ≡ t → s ≢ u
apart s t u n e = λ e2. other t u n ((sym e) ∙ e2)

kind-cases :
    (index : ℕ) (s : String)
    → ((s ≡ "value") × (parse_kind index s ≡ ok value))
      ⊎ ((s ≡ "map") × (parse_kind index s ≡ ok map))
      ⊎ ((s ≡ "set") × (parse_kind index s ≡ ok set))
      ⊎ ((s ≡ "deque") × (parse_kind index s ≡ ok deque))
      ⊎ ((s ≢ "value")
          × (s ≢ "map")
          × (s ≢ "set")
          × (s ≢ "deque")
          × (parse_kind index s ≡ err (bad_kind index s)))
unfolding parse_kind
kind-cases index s = elim (Bool-cases (str_eq s "value")) [
  | inl e ↦ inl ((eq_iff s "value").0 e, rw e refl)
  | inr n0 ↦ elim (Bool-cases (str_eq s "map")) [
    | inl e ↦ inr (inl ((eq_iff s "map").0 e, rw (n0, e) refl))
    | inr n1 ↦ elim (Bool-cases (str_eq s "set")) [
      | inl e ↦ inr (inr (inl ((eq_iff s "set").0 e, rw (n0, n1, e) refl)))
      | inr n2 ↦ elim (Bool-cases (str_eq s "deque")) [
        | inl e ↦ inr (inr (inr (inl ((eq_iff s "deque").0 e, rw (n0, n1, n2, e) refl))))
        | inr n3 ↦ inr (
            inr (
              inr (
                inr (
                  other s "value" n0,
                  other s "map" n1,
                  other s "set" n2,
                  other s "deque" n3,
                  rw (n0, n1, n2, n3) refl,
                ))))
      ]
    ]
  ]
]

payload-cases :
    (index : ℕ) (s : String)
    → ((s ≡ "json") × (parse_payload index s ≡ ok json))
      ⊎ ((s ≡ "message") × (parse_payload index s ≡ ok message))
      ⊎ ((s ≢ "json") × (s ≢ "message") × (parse_payload index s ≡ err (bad_payload index s)))
unfolding parse_payload
payload-cases index s = elim (Bool-cases (str_eq s "json")) [
  | inl e ↦ inl ((eq_iff s "json").0 e, rw e refl)
  | inr n0 ↦ elim (Bool-cases (str_eq s "message")) [
    | inl e ↦ inr (inl ((eq_iff s "message").0 e, rw (n0, e) refl))
    | inr n1 ↦ inr (inr (other s "json" n0, other s "message" n1, rw (n0, n1) refl))
  ]
]

-- A kind has one name.
one_name :
    (s : String)
    → ((s ≡ "value") → (s ≢ "map") × (s ≢ "set") × (s ≢ "deque"))
      × ((s ≡ "map") → (s ≢ "set") × (s ≢ "deque"))
      × ((s ≡ "set") → s ≢ "deque")
one_name s = (
  λ e. (apart s "value" "map" refl e, apart s "value" "set" refl e, apart s "value" "deque" refl e),
  (λ e. (apart s "map" "set" refl e, apart s "map" "deque" refl e)),
  apart s "set" "deque" refl,
)

-- A collection is accepted exactly when it is one of the four kinds with the options of its kind.
pub state_collection-IsOk :
    (index : ℕ) (c : StateCollectionConfig) → IsOk (state_collection index c) ↔ IsCollection c
unfolding state_collection check_keyset_limit check_capacity descriptor
state_collection-IsOk index c = elim (Option-cases c.payload) [
  | inl e ↦ ground (arith, kind-cases index c.kind, one_name c.kind)
  | inr (s, e) ↦ ground (arith, kind-cases index c.kind, one_name c.kind, payload-cases index s)
]

-- The name of a result, where an error counts as `s`.
abbrev name_or : String → Result Message Descriptor → String
name_or s (ok d) = d.name
name_or s (err e) = s

bind-name :
    {A : Type 0} (s : String) (m : Result Message A) (f : A → Result Message Descriptor)
    → ((a : A) → name_or s (f a) ≡ s)
    → name_or s (m >>= f) ≡ s
bind-name s (ok a) f h = h a
bind-name s (err e) f h = refl

module _ (index : ℕ) (c : StateCollectionConfig) where
  descriptor-name :
      (kind : CollectionKind) (payload : Option CollectionPayload) (limit cap : Option ℕ)
      → name_or c.name (descriptor index c kind payload limit cap) ≡ c.name
  unfolding descriptor with_def
  descriptor-name value none limit capacity = refl
  descriptor-name map none limit capacity = refl
  descriptor-name set none limit capacity = refl
  descriptor-name deque none limit capacity = refl
  descriptor-name value (some json) limit capacity = refl
  descriptor-name map (some json) limit capacity = refl
  descriptor-name set (some json) limit capacity = refl
  descriptor-name deque (some json) limit capacity = refl
  descriptor-name value (some message) limit capacity = refl
  descriptor-name map (some message) limit capacity = refl
  descriptor-name set (some message) limit capacity = refl
  descriptor-name deque (some message) limit capacity = refl

  state_collection-name : name_or c.name (state_collection index c) ≡ c.name
  unfolding state_collection
  state_collection-name = bind-name c.name (parse_kind index c.kind) _ (λ kind.
      bind-name c.name (traverse_option (parse_payload index) c.payload) _ (λ payload.
        bind-name c.name (check_keyset_limit c.keyset_limit kind index) _ (λ limit.
          bind-name c.name (check_capacity c.capacity kind index) _
            (λ capacity. descriptor-name kind payload limit capacity))))

-- If registration succeeds, then the registered descriptors are those from before, followed by one
-- per collection in the order of the configuration, under the collection's name.
pub register_from-names :
    (index : ℕ) (collections : List StateCollectionConfig) (before : List Descriptor)
    {registered : List Descriptor}
    → register_from index collections before ≡ ok registered
    → list_map (λ d. d.name) registered
      ≡ list_map (λ d. d.name) before ++ list_map (λ c. c.name) collections
unfolding register_from
register_from-names index [] before {registered} h =
    ap (list_map (λ d. d.name)) (sym (ok-injective _ _ h)) ∙ sym (append-nil _)
register_from-names index (c ∷ collections) before h =
    let (d, e, h1) =
      >>=-eq-ok (state_collection index c)
        (λ x. register_from (suc index) collections (before ++ (x ∷ []))) h in
    let rest = register_from-names (suc index) collections (before ++ (d ∷ [])) h1 in
    let named = (sym (ap (name_or c.name) e)) ∙ (state_collection-name index c) in
    rest
    ∙ ap (λ l. l ++ list_map (λ x. x.name) collections) (map-append (λ x. x.name) before (d ∷ []))
    ∙ append_assoc (list_map (λ x. x.name) before) (d.name ∷ [])
        (list_map (λ x. x.name) collections)
    ∙ ap (λ s. list_map (λ x. x.name) before ++ (s ∷ list_map (λ x. x.name) collections)) named
