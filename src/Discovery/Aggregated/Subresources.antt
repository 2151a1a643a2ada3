-- ===== src/Discovery/Aggregated/Subresources.antt =====
-- What it means that an aggregated discovery document advertises only what is served, and that
-- the subresources which pass the filter are.
use kubegate.Prelude.{
  String, true, false, Option, none, some, ◌≡◌, refl, inl, inr, ◌==◌, Bool-cases, Option-cases,
  eq_refl,
}
use kubegate.Json.{object, Items, nil, cons, Fields, lookup, str, as_array}
use kubegate.Json.Laws.{lookup-put}
use kubegate.Policy.Types.{Request}
use kubegate.Policy.Engine.{Engine, authorize_resource_kind, permits_group}
use kubegate.Discovery.Documents.{GroupVersion, subresource_probe}
use kubegate.Discovery.Flat.Served.{listing, getting}
use kubegate.Discovery.Aggregated.{
  Sifted, sift_subresources, filter_aggregated_subresources, assign_if_changed, group_name,
}

-- The engine permits the request, by its type.
abbrev pub Serves : Engine → Request → Type 0
Serves e req = (authorize_resource_kind e req).allow ≡ true

-- Every item of the array that is there.
abbrev pub EachOf : (Items → Type 0) → Option Items → Type 0
EachOf P none = Unit
EachOf P (some vs) = P vs

-- The array that is left, assigned or not.
pub assigned_each :
    (P : Items → Type 0) (name : String) (fs : Fields) (vs : Items) (s : Sifted)
    → as_array (lookup name fs) ≡ some vs
    → P s.items
    → (s.changed ≡ false → P vs)
    → EachOf P (as_array (lookup name (assign_if_changed name fs s).fields))
assigned_each P name fs vs s e p q = elim (Bool-cases s.changed) [
  | inl c ↦ rw c (rw (lookup-put, eq_refl) p)
  | inr c ↦ rw c (rw e (q c))
]

pub assigned_other :
    (name k : String) (fs : Fields) (s : Sifted)
    → (name == k) ≡ false
    → lookup k (assign_if_changed name fs s).fields ≡ lookup k fs
assigned_other name k fs s n = elim (Bool-cases s.changed) [
  | inl c ↦ rw c (rw (lookup-put, n))
  | inr c ↦ rw c
]

pub unchanged_same :
    (name : String) (fs : Fields) (s : Sifted)
    → (assign_if_changed name fs s).changed ≡ false
    → (assign_if_changed name fs s).fields ≡ fs
unchanged_same name fs s h = elim (Bool-cases s.changed) [ inl c ↦ cc (rw c at h) | inr c ↦ rw c ]

module _ (e : Engine) where
  abbrev pub SubresourcesServed : GroupVersion → String → Items → Type 0
  SubresourcesServed gv name nil = Unit
  SubresourcesServed gv name (cons (object s) vs) =
      Serves e (getting gv.group gv.version name (str (lookup "subresource" s)))
      × SubresourcesServed gv name vs
  SubresourcesServed gv name (cons v vs) = SubresourcesServed gv name vs

  -- A resource is served, and so is each of its subresources.
  abbrev pub ResourceServed : GroupVersion → Fields → Type 0
  ResourceServed gv r =
      Serves e (listing gv.group gv.version (str (lookup "resource" r)))
      × EachOf (SubresourcesServed gv (str (lookup "resource" r)))
          (as_array (lookup "subresources" r))

  abbrev pub ResourcesServed : GroupVersion → Items → Type 0
  ResourcesServed gv nil = Unit
  ResourcesServed gv (cons (object r) vs) = ResourceServed gv r × ResourcesServed gv vs
  ResourcesServed gv (cons v vs) = ResourcesServed gv vs

  abbrev pub VersionServed : String → Fields → Type 0
  VersionServed group v =
      EachOf (ResourcesServed (record { group = group; version = str (lookup "version" v) }))
        (as_array (lookup "resources" v))

  abbrev pub VersionsServed : String → Items → Type 0
  VersionsServed group nil = Unit
  VersionsServed group (cons (object v) vs) = VersionServed group v × VersionsServed group vs
  VersionsServed group (cons v vs) = VersionsServed group vs

  -- A group is permitted, and all that its versions hold is served.
  abbrev pub GroupServed : Fields → Type 0
  GroupServed g =
      (permits_group e (group_name g) ≡ true)
      × EachOf (VersionsServed (group_name g)) (as_array (lookup "versions" g))

  abbrev pub GroupsServed : Items → Type 0
  GroupsServed nil = Unit
  GroupsServed (cons (object g) vs) = GroupServed g × GroupsServed vs
  GroupsServed (cons v vs) = GroupsServed vs

  sift_subresources_served :
      (gv : GroupVersion) (name : String) (vs : Items)
      → SubresourcesServed gv name (sift_subresources e gv name vs).items
  unfolding sift_subresources
  sift_subresources_served gv name nil = tt
  sift_subresources_served gv name (cons (object s) vs) =
      elim (Bool-cases
        (authorize_resource_kind e
          (subresource_probe gv name (str (lookup "subresource" s)))).allow) [
            | inl a ↦ rw a (a, sift_subresources_served gv name vs)
            | inr d ↦ rw d (sift_subresources_served gv name vs)
          ]
  sift_subresources_served gv name (cons v vs) = sift_subresources_served gv name vs

  sift_subresources_unchanged :
      (gv : GroupVersion) (name : String) (vs : Items)
      → (sift_subresources e gv name vs).changed ≡ false
      → SubresourcesServed gv name vs
  unfolding sift_subresources
  sift_subresources_unchanged gv name nil h = tt
  sift_subresources_unchanged gv name (cons (object s) vs) h =
      elim (Bool-cases
        (authorize_resource_kind e
          (subresource_probe gv name (str (lookup "subresource" s)))).allow) [
            | inl a ↦ (a, sift_subresources_unchanged gv name vs (rw a at h))
            | inr d ↦ cc (rw d at h)
          ]
  sift_subresources_unchanged gv name (cons v vs) h = sift_subresources_unchanged gv name vs h

  -- A resource whose subresources have been filtered.
  subresources_served :
      (gv : GroupVersion) (name : String) (r : Fields)
      → EachOf
          (SubresourcesServed gv name)
          (as_array (lookup "subresources" (filter_aggregated_subresources e gv name r).fields))
  unfolding filter_aggregated_subresources
  subresources_served gv name r = elim (Option-cases (as_array (lookup "subresources" r))) [
    | inl m ↦ rw (m, filter_aggregated_subresources) (rw m tt)
    | inr (subs, m) ↦
        rw (m, filter_aggregated_subresources)
          (assigned_each (SubresourcesServed gv name) "subresources" r subs
            (sift_subresources e gv name subs) m (sift_subresources_served gv name subs)
            (sift_subresources_unchanged gv name subs))
  ]

  subresources_other :
      (gv : GroupVersion) (name : String) (r : Fields)
      → lookup "resource" (filter_aggregated_subresources e gv name r).fields ≡ lookup "resource" r
  unfolding filter_aggregated_subresources
  subresources_other gv name r = elim (Option-cases (as_array (lookup "subresources" r))) [
    | inl m ↦ rw (m, filter_aggregated_subresources)
    | inr (subs, m) ↦
        rw (m, filter_aggregated_subresources)
          (assigned_other "subresources" "resource" r (sift_subresources e gv name subs) refl)
  ]

  pub subresources_unchanged :
      (gv : GroupVersion) (name : String) (r : Fields)
      → (filter_aggregated_subresources e gv name r).changed ≡ false
      → (filter_aggregated_subresources e gv name r).fields ≡ r
  unfolding filter_aggregated_subresources
  subresources_unchanged gv name r h = elim (Option-cases (as_array (lookup "subresources" r))) [
    | inl m ↦ rw (m, filter_aggregated_subresources)
    | inr (subs, m) ↦
        rw (m, filter_aggregated_subresources)
          (unchanged_same "subresources" r (sift_subresources e gv name subs)
            (rw (m, filter_aggregated_subresources) at h))
  ]

  pub resource_served :
      (gv : GroupVersion) (r : Fields)
      → Serves e (listing gv.group gv.version (str (lookup "resource" r)))
      → ResourceServed gv (filter_aggregated_subresources e gv (str (lookup "resource" r)) r).fields
  resource_served gv r a =
      rw (subresources_other gv (str (lookup "resource" r)) r)
        (a, subresources_served gv (str (lookup "resource" r)) r)
