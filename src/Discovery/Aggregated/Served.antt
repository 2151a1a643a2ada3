-- ===== src/Discovery/Aggregated/Served.antt =====
-- What an aggregated discovery document advertises once it has passed the filter.
use kubegate.Prelude.{
  String, Bool, true, false, Option, none, some, ◌≡◌, refl, ◌∙◌, inl, inr, ap, ap₂, subst, sym,
  Bool-cases, or_left, or_right,
}
use kubegate.Json.{Json, array, object, Items, nil, cons, Fields, lookup, put, str, as_array}
use kubegate.Json.Laws.{lookup-put, put_same}
use kubegate.Policy.Engine.{Engine, authorize_resource_kind, permits_group}
use kubegate.Discovery.Documents.{
  FilterError, Filtered, kept, error, ◌>>=◌, require_array, GroupVersion, aggregated_probe,
}
use kubegate.Discovery.Aggregated.{
  sift_resources, sift_present, filter_aggregated_resources, filter_version_items,
  filter_aggregated_versions, group_name, filter_group_items, filter_aggregated_discovery_list,
  assign_items,
}
use kubegate.Discovery.Aggregated.Subresources.{
  EachOf, ResourcesServed, VersionServed, VersionsServed, GroupServed, GroupsServed, assigned_each,
  assigned_other, unchanged_same, subresources_unchanged, resource_served,
}

kept_value : {A : Type 0} {a b : A} {c d : Bool} → kept a c ≡ kept b d → a ≡ b
kept_value h = cc h

kept_changed : {A : Type 0} {a b : A} {c d : Bool} → kept a c ≡ kept b d → c ≡ d
kept_changed h = cc h

kept_transfer :
    {A : Type 0} (P : A → Bool → Type 0) {a b : A} {c d : Bool}
    → kept a c ≡ kept b d
    → P a c
    → P b d
kept_transfer P {a} {d} h p =
    subst (λ x. P x d) (kept_value h) (subst (λ x. P a x) (kept_changed h) p)

-- What a step that was kept began with.
bind_kept :
    {A B : Type 0} (m : Filtered A) (k : A → Bool → Filtered B) {b : B} {c : Bool}
    → (m >>= k) ≡ kept b c
    → (a : A) × (d : Bool) × (m ≡ kept a d) × (k a d ≡ kept b c)
bind_kept (kept a d) k h = (a, d, refl, h)
bind_kept (error e) k h = cc

module _ (e : Engine) where
  sift_resources_served :
      (gv : GroupVersion) (vs : Items) → ResourcesServed e gv (sift_resources e gv vs).items
  unfolding sift_resources
  sift_resources_served gv nil = tt
  sift_resources_served gv (cons (object r) vs) =
      elim (Bool-cases
        (authorize_resource_kind e (aggregated_probe gv (str (lookup "resource" r)))).allow) [
          | inl a ↦ rw a (resource_served e gv r a, sift_resources_served gv vs)
          | inr d ↦ rw d (sift_resources_served gv vs)
        ]
  sift_resources_served gv (cons v vs) = sift_resources_served gv vs

  sift_resources_unchanged :
      (gv : GroupVersion) (vs : Items)
      → (sift_resources e gv vs).changed ≡ false
      → ResourcesServed e gv vs
  unfolding sift_resources
  sift_resources_unchanged gv nil h = tt
  sift_resources_unchanged gv (cons (object r) vs) h =
      elim (Bool-cases
        (authorize_resource_kind e (aggregated_probe gv (str (lookup "resource" r)))).allow) [
          | inl a ↦
              let h' = (rw a at h) in
              (
                rw (subresources_unchanged e gv (str (lookup "resource" r)) r (or_left _ _ h')) at
                    (resource_served e gv r a),
                sift_resources_unchanged gv vs (or_right _ _ h'),
              )
          | inr d ↦ cc (rw d at h)
        ]
  sift_resources_unchanged gv (cons v vs) h = sift_resources_unchanged gv vs h

  present_served :
      (group : String) (v v' : Fields) (o : Option Json) (changed : Bool)
      → lookup "resources" v ≡ o
      → sift_present e (record { group = group; version = str (lookup "version" v) }) v o
        ≡ kept v' changed
      → VersionServed e group v' × (changed ≡ false → v' ≡ v)
  present_served group v v' none changed m h = rw (← kept_value h) (rw m (tt, λ _. refl))
  present_served group v v' (some (array vs)) changed m h =
      let gv : GroupVersion = record { group = group; version = str (lookup "version" v) } in
      let s = sift_resources e gv vs in
      rw (← kept_value h, ← kept_changed h)
        (
          rw (assigned_other "resources" "version" v s refl) (
              assigned_each (ResourcesServed e gv) "resources" v vs s (ap as_array m)
                (sift_resources_served gv vs) (sift_resources_unchanged gv vs)),
          unchanged_same "resources" v s,
        )
  present_served group v v' (some w) changed m h = cc

  -- A version that has been filtered, of the same name.
  version_served :
      (group : String) (v v' : Fields) (changed : Bool)
      → filter_aggregated_resources e
          (record { group = group; version = str (lookup "version" v) })
          v
        ≡ kept v' changed
      → VersionServed e group v' × (changed ≡ false → v' ≡ v)
  unfolding filter_aggregated_resources
  version_served group v v' changed h =
      present_served group v v' (lookup "resources" v) changed refl h

  version_items_served :
      (group : String) (vs vs' : Items) (changed : Bool)
      → filter_version_items e group vs ≡ kept vs' changed
      → VersionsServed e group vs' × (changed ≡ false → vs' ≡ vs)
  unfolding filter_version_items
  version_items_served group nil vs' changed h = rw (← kept_value h) (tt, λ _. refl)
  version_items_served group (cons (object v) vs) ws changed h =
      let (v', c, hv, h') = bind_kept _ _ h in
      let (vs', d, hvs, h'') = bind_kept _ _ h' in
      let (sv, uv) = version_served group v v' c hv in
      let (svs, uvs) = version_items_served group vs vs' d hvs in
      kept_transfer (λ ws' f. VersionsServed e group ws' × (f ≡ false → ws' ≡ cons (object v) vs))
        h''
        ((sv, svs), λ f. ap₂ (λ a b. cons (object a) b) (uv (or_left c d f)) (uvs (or_right c d f)))
  version_items_served group (cons w vs) ws changed h =
      let (vs', d, hvs, h'') = bind_kept _ _ h in
      let (svs, uvs) = version_items_served group vs vs' d hvs in
      kept_transfer (λ ws' f. VersionsServed e group ws' × (f ≡ false → ws' ≡ cons w vs)) h''
        (svs, λ f. ap (cons w) (uvs f))

  versions_present :
      (group : String) (g g' : Fields) (o : Option Json) (changed : Bool)
      (missing wrong : FilterError)
      → lookup "versions" g ≡ o
      → require_array missing wrong o (λ versions.
        filter_version_items e group versions >>= λ vs c. kept (put "versions" (array vs) g) c)
        ≡ kept g' changed
      → EachOf (VersionsServed e group) (as_array (lookup "versions" g'))
        × (lookup "metadata" g' ≡ lookup "metadata" g)
        × (changed ≡ false → g' ≡ g)
  versions_present group g g' none changed missing wrong m h = cc
  versions_present group g g' (some (array vs)) changed missing wrong m h =
      let (vs', c, hvs, h') = bind_kept _ _ h in
      let (served, same) = version_items_served group vs vs' c hvs in
      kept_transfer
        (λ x f.
          EachOf (VersionsServed e group) (as_array (lookup "versions" x))
          × (lookup "metadata" x ≡ lookup "metadata" g)
          × (f ≡ false → x ≡ g))
        h'
        (
          rw (lookup-put "versions" "versions") served,
          rw (lookup-put "versions" "metadata"),
          λ f. put_same "versions" (array vs') g (m ∙ ap (λ ws. some (array ws)) (sym (same f))),
        )
  versions_present group g g' (some v) changed missing wrong m h = cc

  versions_served :
      (group : String) (g g' : Fields) (changed : Bool)
      → filter_aggregated_versions e group g ≡ kept g' changed
      → EachOf (VersionsServed e group) (as_array (lookup "versions" g'))
        × (lookup "metadata" g' ≡ lookup "metadata" g)
        × (changed ≡ false → g' ≡ g)
  unfolding filter_aggregated_versions
  versions_served group g g' changed h =
      versions_present group g g' (lookup "versions" g) changed _ _ refl h

  -- A group that has been filtered, of the same name.
  group_served :
      (g g' : Fields) (changed : Bool)
      → permits_group e (group_name g) ≡ true
      → filter_aggregated_versions e (group_name g) g ≡ kept g' changed
      → GroupServed e g' × (changed ≡ false → g' ≡ g)
  group_served g g' changed p h =
      let (served, name, same) = versions_served (group_name g) g g' changed h in
      (rw name (p, served), same)

  groups_served :
      (vs vs' : Items) (changed : Bool)
      → filter_group_items e vs ≡ kept vs' changed
      → GroupsServed e vs' × (changed ≡ false → GroupsServed e vs)
  unfolding filter_group_items
  groups_served nil vs' changed h = rw (← kept_value h) (tt, λ _. tt)
  groups_served (cons (object g) vs) ws changed h =
      elim (Bool-cases (permits_group e (group_name g))) [
        | inl p ↦
            let (g', c, hg, h') = bind_kept _ _ (rw p at h) in
            let (vs', d, hvs, h'') = bind_kept _ _ h' in
            let (sg, ug) = group_served g g' c p hg in
            let (svs, uvs) = groups_served vs vs' d hvs in
            kept_transfer
              (λ ws' f. GroupsServed e ws' × (f ≡ false → GroupsServed e (cons (object g) vs))) h''
              (
                (sg, svs),
                λ f. (subst (GroupServed e) (ug (or_left c d f)) sg, uvs (or_right c d f)),
              )
        | inr r ↦
            let (vs', d, hvs, h'') = bind_kept _ _ (rw r at h) in
            let (svs, uvs) = groups_served vs vs' d hvs in
            kept_transfer
              (λ ws' f. GroupsServed e ws' × (f ≡ false → GroupsServed e (cons (object g) vs))) h''
              (svs, λ f. cc f)
      ]
  groups_served (cons w vs) ws changed h = groups_served vs ws changed h

  assigned_groups :
      (root root' : Fields) (vs vs' : Items) (c changed : Bool)
      → lookup "items" root ≡ some (array vs)
      → GroupsServed e vs'
      → (c ≡ false → GroupsServed e vs)
      → assign_items root vs' c ≡ kept root' changed
      → EachOf (GroupsServed e) (as_array (lookup "items" root'))
  assigned_groups root root' vs vs' true changed m served was h =
      rw (← kept_value h) (rw (lookup-put "items" "items") served)
  assigned_groups root root' vs vs' false changed m served was h =
      rw (← kept_value h) (rw m (was refl))

  items_present :
      (root root' : Fields) (o : Option Json) (changed : Bool) (missing wrong : FilterError)
      → lookup "items" root ≡ o
      → require_array missing wrong o
          (λ items. filter_group_items e items >>= λ vs c. assign_items root vs c)
        ≡ kept root' changed
      → EachOf (GroupsServed e) (as_array (lookup "items" root'))
  items_present root root' none changed missing wrong m h = cc
  items_present root root' (some (array vs)) changed missing wrong m h =
      let (vs', c, hvs, h') = bind_kept _ _ h in
      let (served, was) = groups_served vs vs' c hvs in
      assigned_groups root root' vs vs' c changed m served was h'
  items_present root root' (some v) changed missing wrong m h = cc

-- Where an APIGroupDiscoveryList passes the filter, whether changed or not, it advertises only
-- what the engine serves: each group is one that it permits, each resource is one whose list and
-- each subresource one whose get `AuthorizesResourceKind` permits. Entries that are no objects, and
-- fields that are missing or no arrays, advertise nothing.
pub filter_aggregated_discovery_list_served :
    (e : Engine) (root root' : Fields) (changed : Bool)
    → filter_aggregated_discovery_list e root ≡ kept root' changed
    → EachOf (GroupsServed e) (as_array (lookup "items" root'))
unfolding filter_aggregated_discovery_list
filter_aggregated_discovery_list_served e root root' changed h =
    items_present e root root' (lookup "items" root) changed _ _ refl h
