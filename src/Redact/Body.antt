-- ===== src/Redact/Body.antt =====
-- Whole response bodies: which objects of a body that is passed on, changed or not, are clean.
use kubegate.Prelude.{
  String, Bool, true, false, not, ◌≢◌, ◌⊎◌, refl, ap, ◌∙◌, Option, none, some, ◌==◌, ◌≡◌, inl, inr,
  arith, eq_iff, eq_refl, if◌then◌else◌, Bool-cases, Option-cases,
}
use kubegate.Text.{has_suffix, trim_suffix}
use kubegate.Json.{
  Json, array, object, Items, Fields, lookup, put, as_array, str, Bytes, Codec, decode_map, entries,
}
use kubegate.Json.Laws.{lookup-put}
use kubegate.Redact.{
  redact_object, redact_list, redact_table, redact_root, redact_body, body, encoded,
}
use kubegate.Redact.Clean.{IsClean, redact_object-IsClean}
use kubegate.Redact.Keeps.{redact_object_keeps}
use kubegate.Redact.Elements.{
  ItemsAreClean, RowsAreClean, redact_items_clean, redact_rows_clean, redact_object_unchanged,
  redact_items_unchanged, redact_rows_unchanged,
}

abbrev ArrayIs : (Items → Type 0) → Option Items → Type 0
ArrayIs P none = Unit
ArrayIs P (some vs) = P vs

abbrev pub kind_named : Fields → String
kind_named root = str (lookup "kind" root)

-- The parts that `Body` looks at, by the kind.
abbrev PartsAreClean : Fields → Type 0
PartsAreClean root =
    if kind_named root == "Table"
    then ArrayIs RowsAreClean (as_array (lookup "rows" root))
    else if has_suffix (kind_named root) "List"
    then ArrayIs (λ vs. ItemsAreClean vs (trim_suffix (kind_named root) "List"))
        (as_array (lookup "items" root))
    else IsClean root ""

-- What is known of a document: it is clean itself unless it is a Table or its kind ends in List; of one
-- whose kind ends in List, the objects among the items are clean, with the kind less that end as the
-- hint; of a Table, the objects of the rows are.
pub record HoldsClean (root : Fields) : Type 0 where
  pub itself :
      (kind_named root ≡ "Table") ⊎ (has_suffix (kind_named root) "List" ≡ true) ⊎ IsClean root ""
  pub items :
      (has_suffix (kind_named root) "List" ≡ false)
      ⊎ ArrayIs
          (λ vs. ItemsAreClean vs (trim_suffix (kind_named root) "List"))
          (as_array (lookup "items" root))
  pub rows : (kind_named root ≢ "Table") ⊎ ArrayIs RowsAreClean (as_array (lookup "rows" root))

-- A document whose kind ends in List, without an array of items: nothing of it is looked at, also where
-- it is a single object of such a kind.
abbrev pub IsBare : Fields → Type 0
IsBare root = (has_suffix (kind_named root) "List" ≡ true) × (as_array (lookup "items" root) ≡ none)

table_no_list : (k : String) → k ≡ "Table" → has_suffix k "List" ≡ false
unfolding has_suffix
table_no_list k e = rw e refl

PartsAreClean-HoldsClean : (root : Fields) → PartsAreClean root → HoldsClean root
PartsAreClean-HoldsClean root h = elim (Bool-cases (kind_named root == "Table")) [
  | inl t ↦
      let e = (eq_iff (kind_named root) "Table").0 t in
      record { itself = inl e; items = inl (table_no_list _ e); rows = inr (rw t at h) }
  | inr n ↦
      let other : kind_named root ≢ "Table" = λ e. cc ((eq_iff _ _).1 e, n) in
      elim (Bool-cases (has_suffix (kind_named root) "List")) [
        | inl l ↦ record { itself = inr (inl l); items = inr (rw (n, l) at h); rows = inl other }
        | inr m ↦ record { itself = inr (inr (rw (n, m) at h)); items = inl m; rows = inl other }
      ]
]

-- The kind of a document is not changed.
kind-redact_object : (obj : Fields) → lookup "kind" (redact_object obj "").value ≡ lookup "kind" obj
kind-redact_object obj =
    (redact_object_keeps obj "" "kind" (ground (arith, eq_iff "kind" "metadata"))
      (inr (ground (arith, eq_iff "kind" "data"), ground (arith, eq_iff "kind" "stringData")))).0

array_put :
    (P : Items → Type 0) (k : String) (vs : Items) (root : Fields)
    → P vs
    → ArrayIs P (as_array (lookup k (put k (array vs) root)))
array_put P k vs root p = rw (lookup-put, eq_refl) p

redact_table_clean :
    (root : Fields) → ArrayIs RowsAreClean (as_array (lookup "rows" (redact_table root).value))
unfolding redact_table
redact_table_clean root = elim (Option-cases (as_array (lookup "rows" root))) [
  | inl e ↦ rw (e, redact_table) (rw e tt)
  | inr (rows, e) ↦
      rw (e, redact_table) (array_put RowsAreClean "rows" _ root (redact_rows_clean rows))
]

redact_list_clean :
    (root : Fields) (kind : String)
    → ArrayIs
        (λ vs. ItemsAreClean vs kind)
        (as_array (lookup "items" (redact_list root kind).value))
unfolding redact_list
redact_list_clean root kind = elim (Option-cases (as_array (lookup "items" root))) [
  | inl e ↦ rw (e, redact_list) (rw e tt)
  | inr (items, e) ↦
      rw (e, redact_list)
        (array_put (λ vs. ItemsAreClean vs kind) "items" _ root (redact_items_clean items kind))
]

redact_table_unchanged :
    (root : Fields)
    → (redact_table root).changed ≡ false
    → ArrayIs RowsAreClean (as_array (lookup "rows" root))
unfolding redact_table
redact_table_unchanged root h = elim (Option-cases (as_array (lookup "rows" root))) [
  | inl e ↦ rw e tt
  | inr (rows, e) ↦ rw e (redact_rows_unchanged rows (rw (e, redact_table) at h))
]

redact_list_unchanged :
    (root : Fields) (kind : String)
    → (redact_list root kind).changed ≡ false
    → ArrayIs (λ vs. ItemsAreClean vs kind) (as_array (lookup "items" root))
unfolding redact_list
redact_list_unchanged root kind h = elim (Option-cases (as_array (lookup "items" root))) [
  | inl e ↦ rw e tt
  | inr (items, e) ↦ rw e (redact_items_unchanged items kind (rw (e, redact_list) at h))
]

kind-redact_table : (root : Fields) → lookup "kind" (redact_table root).value ≡ lookup "kind" root
unfolding redact_table
kind-redact_table root = elim (Option-cases (as_array (lookup "rows" root))) [
  | inl e ↦ rw (e, redact_table)
  | inr (rows, e) ↦ rw (e, redact_table, lookup-put "rows" "kind")
]

kind-redact_list :
    (root : Fields) (kind : String)
    → lookup "kind" (redact_list root kind).value ≡ lookup "kind" root
unfolding redact_list
kind-redact_list root kind = elim (Option-cases (as_array (lookup "items" root))) [
  | inl e ↦ rw (e, redact_list)
  | inr (items, e) ↦ rw (e, redact_list, lookup-put "items" "kind")
]

redact_root-PartsAreClean : (root : Fields) → PartsAreClean (redact_root root).value
unfolding redact_root
redact_root-PartsAreClean root = elim (Bool-cases (str (lookup "kind" root) == "Table")) [
  | inl t ↦ rw t (rw (kind-redact_table root) (rw t (redact_table_clean root)))
  | inr n ↦ elim (Bool-cases (has_suffix (str (lookup "kind" root)) "List")) [
    | inl l ↦ rw (n, l) (rw (kind-redact_list root _) (rw (n, l) (redact_list_clean root _)))
    | inr m ↦ rw (n, m) (rw (kind-redact_object root) (rw (n, m) (redact_object-IsClean root "")))
  ]
]

redact_root_unchanged : (root : Fields) → (redact_root root).changed ≡ false → PartsAreClean root
unfolding redact_root
redact_root_unchanged root h = elim (Bool-cases (str (lookup "kind" root) == "Table")) [
  | inl t ↦ rw t (redact_table_unchanged root (rw t at h))
  | inr n ↦ elim (Bool-cases (has_suffix (str (lookup "kind" root)) "List")) [
    | inl l ↦ rw (n, l) (redact_list_unchanged root _ (rw (n, l) at h))
    | inr m ↦ rw (n, m) (redact_object_unchanged root "" (rw (n, m) at h))
  ]
]

redact_list_bare :
    (root : Fields) (kind : String)
    → as_array (lookup "items" (redact_list root kind).value) ≡ none
    → (redact_list root kind).changed ≡ false
unfolding redact_list
redact_list_bare root kind h = elim (Option-cases (as_array (lookup "items" root))) [
  | inl e ↦ rw (e, redact_list) refl
  | inr (items, e) ↦
      let k : some _ ≡ none = rw (e, redact_list, lookup-put "items" "items") at h in cc k
]

-- What is not looked at is not changed.
redact_root_bare :
    (root : Fields) → IsBare (redact_root root).value → (redact_root root).changed ≡ false
unfolding redact_root
redact_root_bare root (l, none_) = elim (Bool-cases (kind_named root == "Table")) [
  | inl t ↦
      let v = redact_table root in
      cc (
        rw t at l,
        table_no_list (kind_named v.value)
            (ap str (kind-redact_table root) ∙ (eq_iff (kind_named root) "Table").0 t),
      )
  | inr n ↦ elim (Bool-cases (has_suffix (kind_named root) "List")) [
    | inl s ↦ rw (n, s) (redact_list_bare root _ (rw (n, s) at none_))
    | inr m ↦ cc (m, rw (n, m, kind-redact_object root) at l)
  ]
]

-- What `Body` returned: the bytes that it was given, of a document that holds what is clean, or an
-- encoding of such a document, which is none that is not looked at.
abbrev pub Inspected : Codec → Bytes → Bytes → Bool → Type 0
Inspected codec b out false =
    (root : Json) × (out ≡ b) × (decode_map codec b ≡ some root) × HoldsClean (entries root)
Inspected codec b out true =
    (root : Fields) × (codec.encode (object root) ≡ some out) × HoldsClean root × (¬ IsBare root)

encoded_inv :
    (o : Option Bytes) (out : Bytes) (changed : Bool)
    → encoded o ≡ body out changed
    → (o ≡ some out) × (changed ≡ true)
encoded_inv none out changed h = cc
encoded_inv (some b) out changed h = (cc h, cc h)

-- What `Body` returns once it has decoded the document.
root_result :
    (codec : Codec) (b out : Bytes) (changed : Bool) (root : Json)
    → decode_map codec b ≡ some root
    → (let r = redact_root (entries root) in
        if not r.changed then body b false else encoded (codec.encode (object r.value)))
      ≡ body out changed
    → Inspected codec b out changed
root_result codec b out false root e h = elim (Bool-cases (redact_root (entries root)).changed) [
  | inl c ↦ cc ((encoded_inv _ _ _ (rw c at h)).1)
  | inr c ↦ (
    root,
    cc (rw c at h),
    e,
    PartsAreClean-HoldsClean (entries root) (redact_root_unchanged (entries root) c),
  )
]
root_result codec b out true root e h = elim (Bool-cases (redact_root (entries root)).changed) [
  | inl c ↦ (
    (redact_root (entries root)).value,
    (encoded_inv _ _ _ (rw c at h)).0,
    PartsAreClean-HoldsClean _ (redact_root-PartsAreClean (entries root)),
    λ bare. cc (c, redact_root_bare (entries root) bare),
  )
  | inr c ↦ cc (rw c at h)
]

-- What `Body` returns without an error comes of a body that it has decoded. If it reports no change the
-- bytes are those given; if it reports one they are the encoding of another document. Of the document
-- that these bytes stand for: unless it is a Table or its kind ends in List it is clean itself; if its
-- kind ends in List, every object among the items is clean; if it is a Table, the object of every row
-- is. Of a document whose kind ends in List and that has no array of items this says nothing, be it a
-- list or a single object of such a kind, but that no such document is reported as changed.
pub redact_body_clean :
    (codec : Codec) (b out : Bytes) (changed : Bool)
    → redact_body codec b ≡ body out changed
    → Inspected codec b out changed
unfolding redact_body
redact_body_clean codec b out changed h = elim (Option-cases (decode_map codec b)) [
  | inl e ↦ cc (rw (e, redact_body) at h)
  | inr (root, e) ↦ root_result codec b out changed root e (rw (e, redact_body) at h)
]
