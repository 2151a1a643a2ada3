-- ===== src/Discovery/Flat/Agrees.antt =====
-- The entries that the flat filters keep are those that the engine serves.
use kubegate.Prelude.{
  ◌≤◌, String, Bool, true, Option, none, some, ◌≡◌, refl, ◌↔◌, ◌⊎◌, ◌∙◌, inl, inr, ap, subst, sym,
  arith, eqb, eqb→eq, Bool-cases, eq_refl,
}
use kubegate.Json.{Json, array, Items, nil, cons, Fields, lookup, str}
use kubegate.Json.Laws.{lookup-put}
use kubegate.Policy.Engine.{Engine}
use kubegate.Discovery.Documents.{FilterError, kept, require_array, items_length}
use kubegate.Discovery.Flat.Served.{
  ServedResource, ServedGroup, keeps_resource_iff, keeps_group_iff,
}
use kubegate.Discovery.Flat.{keep_if, replace_array, filter_resource_list, filter_group_list}

-- The value is one of the items.
abbrev pub Listed : Json → Items → Type 0
Listed x nil = ⊥
Listed x (cons v vs) = (x ≡ v) ⊎ Listed x vs

pub keep_if_iff :
    (test : Json → Bool) (x : Json) (vs : Items)
    → Listed x (keep_if test vs) ↔ (Listed x vs × (test x ≡ true))
unfolding keep_if
keep_if_iff test x nil = (λ h. absurd h, λ h. absurd h.0)
keep_if_iff test x (cons v vs) =
    let (to, from) = keep_if_iff test x vs in
    elim (Bool-cases (test v)) [
      | inl t ↦ rw t (
        elim [
          | inl e ↦ (inl e, subst (λ y. test y ≡ true) (sym e) t)
          | inr l ↦ (inr (to l).0, (to l).1)
        ],
        λ (l, k). elim l [ inl e ↦ inl e | inr m ↦ inr (from (m, k)) ],
      )
      | inr f ↦ rw f (
        λ l. (inr (to l).0, (to l).1),
        λ (l, k). elim l [ inl e ↦ cc (ap test e, k, f) | inr m ↦ from (m, k) ],
      )
    ]

keep_if-length :
    (test : Json → Bool) (vs : Items) → items_length (keep_if test vs) ≤ items_length vs
unfolding keep_if
keep_if-length test nil = omega arith
keep_if-length test (cons v vs) = ground (arith, keep_if-length test vs)

-- Where none was dropped, the items are what they were.
keep_if_whole :
    (test : Json → Bool) (vs : Items)
    → items_length (keep_if test vs) ≡ items_length vs
    → keep_if test vs ≡ vs
unfolding keep_if
keep_if_whole test nil h = refl
keep_if_whole test (cons v vs) h = elim (Bool-cases (test v)) [
  | inl t ↦ rw t (ap (cons v) (keep_if_whole test vs (let h' = rw t at h in omega arith)))
  | inr f ↦ absurd (omega (arith, keep_if-length test vs, rw f at h))
]

kept-inj : {A : Type 0} {a b : A} {c d : Bool} → kept a c ≡ kept b d → a ≡ b
kept-inj h = cc h

replace_array_lem :
    (name : String) (root root' : Fields) (test : Json → Bool) (vs : Items) (changed : Bool)
    → lookup name root ≡ some (array vs)
    → replace_array name root vs (keep_if test vs) ≡ kept root' changed
    → lookup name root' ≡ some (array (keep_if test vs))
replace_array_lem name root root' test vs changed e h =
    elim (Bool-cases (eqb (items_length (keep_if test vs)) (items_length vs))) [
      | inl same ↦
          subst (λ r. lookup name r ≡ some (array (keep_if test vs))) (kept-inj (rw same at h))
            (e ∙ ap (λ ws. some (array ws)) (sym (keep_if_whole test vs (eqb→eq _ _ same))))
      | inr other ↦
          subst (λ r. lookup name r ≡ some (array (keep_if test vs))) (kept-inj (rw other at h))
            (rw (lookup-put, eq_refl))
    ]

-- The entries that pass are those of the document that came and are served; the document without the
-- array is an error.
abbrev pub ExactlyThose : (Json → Type 0) → Option Json → Option Json → Type 0
ExactlyThose Served (some (array before)) (some (array after)) =
    (x : Json) → Listed x after ↔ (Listed x before × Served x)
ExactlyThose Served before after = ⊥

require_exact :
    (Served : Json → Type 0) (name : String) (missing wrong : FilterError) (root root' : Fields)
    (test : Json → Bool) (o : Option Json) (changed : Bool)
    → ((x : Json) → (test x ≡ true) ↔ Served x)
    → lookup name root ≡ o
    → require_array missing wrong o (λ vs. replace_array name root vs (keep_if test vs))
      ≡ kept root' changed
    → ExactlyThose Served (lookup name root) (lookup name root')
require_exact Served name missing wrong root root' test none changed i e h = cc
require_exact Served name missing wrong root root' test (some (array vs)) changed i e h =
    rw (e, replace_array_lem name root root' test vs changed e h)
      (λ x.
        let (to, from) = keep_if_iff test x vs in
        (λ h. ((to h).0, (i x).0 (to h).1), λ (m, k). from (m, (i x).1 k)))
require_exact Served name missing wrong root root' test (some v) changed i e h = cc

-- Where an APIResourceList passes the filter, its new entries are exactly the old entries that are
-- objects and that are served: whose name is a resource that the engine permits to list, or a resource and
-- a subresource, with a slash between them, that the engine permits to get, in the group and the version
-- that the document's groupVersion names, which is the version alone for the core group.
pub filter_resource_list_exact :
    (e : Engine) (root root' : Fields) (changed : Bool)
    → filter_resource_list e root ≡ kept root' changed
    → ExactlyThose
        (ServedResource e (str (lookup "groupVersion" root)))
        (lookup "resources" root)
        (lookup "resources" root')
unfolding filter_resource_list
filter_resource_list_exact e root root' changed h =
    require_exact _ "resources" _ _ root root' _ _ changed
      (keeps_resource_iff e (str (lookup "groupVersion" root))) refl h

-- Where an APIGroupList passes the filter, its new entries are exactly the old entries that are
-- objects and whose name is a group that the engine permits.
pub filter_group_list_exact :
    (e : Engine) (root root' : Fields) (changed : Bool)
    → filter_group_list e root ≡ kept root' changed
    → ExactlyThose (ServedGroup e) (lookup "groups" root) (lookup "groups" root')
unfolding filter_group_list
filter_group_list_exact e root root' changed h =
    require_exact _ "groups" _ _ root root' _ _ changed (keeps_group_iff e) refl h
