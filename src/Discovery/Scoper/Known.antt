-- ===== src/Discovery/Scoper/Known.antt =====
-- What the scope map knows.
use kubegate.Prelude.{
  String, Bool, true, false, Option, none, some, List, [], ◌∷◌, ◌≡◌, refl, ◌⊎◌, inl, inr, ◌==◌,
  Bool-cases, Option-cases, Any, subst, ap, eq_iff, arith, if◌then◌else◌,
}
use Prim.Native.String.{◌++◌ as str_append}
use mathlib.Core.Option.{some-injective}
use kubegate.Text.{contains}
use kubegate.Policy.Scope.{StaticScoper, ScopeAnswer, scoper_key, scoper_lookup}
use kubegate.Discovery.Scoper.{
  ResourceEntry, VersionEntry, GroupEntry, Cluster, assign, record_known, collect_entries, collect,
  or_skip, collect_versions, collect_groups, built, finish, with_groups, with_core, build_scoper,
}

-- A group names a version, and where its document is.
abbrev pub Names : String → String → String → GroupEntry → Type 0
Names path group version g =
    (g.name ≡ group)
    × Any (λ v. (v.version ≡ version) × (path ≡ str_append "/apis/" v.group_version)) g.versions

-- The document of this path describes this version of this group: it is the core group's, or a group
-- of the cluster's list names it.
abbrev pub Located : Cluster → String → String → String → Type 0
Located c path group version =
    ((path ≡ "/api/v1") × (group ≡ "") × (version ≡ "v1"))
    ⊎ ((gs : List GroupEntry) × (c.group_list ≡ some gs) × Any (Names path group version) gs)

-- An entry of a fetched document states the scope of a resource that has no slash in its name,
-- under this key.
pub record Stated (c : Cluster) (key : String) (ns : Bool) : Type 0 where
  pub path : String
  pub group : String
  pub version : String
  pub entries : List ResourceEntry
  pub located : Located c path group version
  pub fetched : c.resource_list path ≡ some entries
  pub entry :
      Any
        (λ r.
          (contains r.name "/" ≡ false)
          × (r.namespaced ≡ some ns)
          × (key ≡ scoper_key group version r.name))
        entries

abbrev known_as : Bool → ScopeAnswer
known_as ns = record { namespaced = ns; known = true }

known-inj : {a b : Bool} → known_as a ≡ known_as b → a ≡ b
known-inj e = ap (λ x. x.namespaced) e

-- Everything that the map knows is stated.
abbrev AllStated : Cluster → StaticScoper → Type 0
AllStated c s = (k : String) (ns : Bool) → scoper_lookup s k ≡ known_as ns → Stated c k ns

scoper_lookup-assign :
    (k j : String) (v : Bool) (s : StaticScoper)
    → scoper_lookup (assign k v s) j ≡ (if k == j then known_as v else scoper_lookup s j)
unfolding scoper_lookup assign
scoper_lookup-assign k j v [] = ground arith
scoper_lookup-assign k j v ((i, w) ∷ s) =
    ground (arith, scoper_lookup-assign k j v s, eq_iff i k, eq_iff i j, eq_iff k j)

assign-Stated :
    (c : Cluster) (k : String) (v : Bool) (s : StaticScoper)
    → Stated c k v
    → AllStated c s
    → AllStated c (assign k v s)
assign-Stated c k v s st h j ns e = elim (Bool-cases (k == j)) [
  | inl t ↦
      let same = (eq_iff k j).0 t in
      subst (λ x. Stated c x ns) same
        (subst (Stated c k) (known-inj (rw (scoper_lookup-assign, t) at e)) st)
  | inr f ↦ h j ns (rw (scoper_lookup-assign, f) at e)
]

module _ (c : Cluster) (path group version : String) (all : List ResourceEntry)
    (located : Located c path group version) (fetched : c.resource_list path ≡ some all) where
  -- The entries that are still to come are entries of the document.
  abbrev Within : List ResourceEntry → Type 1
  Within rs = (P : ResourceEntry → Type 0) → Any P rs → Any P all

  entry_stated :
      (r : ResourceEntry) (rs : List ResourceEntry) (s : StaticScoper)
      → Within (r ∷ rs)
      → AllStated c s
      → AllStated c (
          if contains r.name "/"
          then s
          else record_known (scoper_key group version r.name) r.namespaced s)
  entry_stated r rs s w h = elim (Bool-cases (contains r.name "/")) [
    | inl t ↦ rw t h
    | inr f ↦ elim (Option-cases r.namespaced) [
      | inl n ↦ rw (f, n) h
      | inr (v, e) ↦
          rw (f, e)
            (assign-Stated c (scoper_key group version r.name) v s
              (record {
                path = path;
                group = group;
                version = version;
                entries = all;
                located = located;
                fetched = fetched;
                entry = w _ (inl (f, e, refl));
              })
              h)
    ]
  ]

  collect_entries_stated :
      (rs : List ResourceEntry) (s : StaticScoper)
      → Within rs
      → AllStated c s
      → AllStated c (collect_entries group version rs s)
  unfolding collect_entries
  collect_entries_stated [] s w h = h
  collect_entries_stated (r ∷ rs) s w h =
      collect_entries_stated rs _ (λ P a. w P (inr a)) (entry_stated r rs s w h)

collect_stated :
    (c : Cluster) (path group version : String) (s s' : StaticScoper)
    → Located c path group version
    → collect c path group version s ≡ some s'
    → AllStated c s
    → AllStated c s'
unfolding collect
collect_stated c path group version s s' l e h = elim (Option-cases (c.resource_list path)) [
  | inl n ↦ cc (rw (n, collect) at e)
  | inr (rs, f) ↦
      subst (AllStated c) (some-injective _ _ (rw (f, collect) at e))
        (collect_entries_stated c path group version rs l f rs s (λ P a. a) h)
]

or_skip_stated :
    (c : Cluster) (o : Option StaticScoper) (s : StaticScoper)
    → ((s' : StaticScoper) → o ≡ some s' → AllStated c s')
    → AllStated c s
    → AllStated c (or_skip o s)
or_skip_stated c none s all h = h
or_skip_stated c (some s') s all h = all s' refl

module _ (c : Cluster) (all : List GroupEntry) (listed : c.group_list ≡ some all) where
  -- The versions that are still to come are versions of a group of the list.
  abbrev VersionsOf : String → List VersionEntry → Type 1
  VersionsOf group vs =
      (P : VersionEntry → Type 0) → Any P vs → Any (λ g. (g.name ≡ group) × Any P g.versions) all

  collect_versions_stated :
      (group : String) (vs : List VersionEntry) (s : StaticScoper)
      → VersionsOf group vs
      → AllStated c s
      → AllStated c (collect_versions c group vs s)
  unfolding collect_versions
  collect_versions_stated group [] s w h = h
  collect_versions_stated group (v ∷ vs) s w h =
      let path = str_append "/apis/" v.group_version in
      let located : Located c path group v.version = inr (all, listed, w _ (inl (refl, refl))) in
      collect_versions_stated group vs _ (λ P a. w P (inr a))
        (or_skip_stated c (collect c path group v.version s) s
          (λ s' e. collect_stated c path group v.version s s' located e h) h)

  collect_groups_stated :
      (gs : List GroupEntry) (s : StaticScoper)
      → ((P : GroupEntry → Type 0) → Any P gs → Any P all)
      → AllStated c s
      → AllStated c (collect_groups c gs s)
  unfolding collect_groups
  collect_groups_stated [] s w h = h
  collect_groups_stated (g ∷ gs) s w h =
      collect_groups_stated gs _ (λ P a. w P (inr a))
        (collect_versions_stated g.name g.versions s (λ P a. w _ (inl (refl, a))) h)

built-inj : {a b : StaticScoper} → built a ≡ built b → a ≡ b
built-inj e = cc e

finish_stated :
    (c : Cluster) (s s' : StaticScoper) → finish s ≡ built s' → AllStated c s → AllStated c s'
finish_stated c [] s' e h = cc e
finish_stated c (x ∷ xs) s' e h = subst (AllStated c) (built-inj e) h

with_groups_stated :
    (c : Cluster) (s s' : StaticScoper) (o : Option (List GroupEntry))
    → c.group_list ≡ o
    → with_groups c s o ≡ built s'
    → AllStated c s
    → AllStated c s'
with_groups_stated c s s' none l e h = cc e
with_groups_stated c s s' (some gs) l e h =
    finish_stated c _ s' e (collect_groups_stated c gs l gs s (λ P a. a) h)

with_core_stated :
    (c : Cluster) (s' : StaticScoper) (o : Option StaticScoper)
    → with_core c o ≡ built s'
    → ((s : StaticScoper) → o ≡ some s → AllStated c s)
    → AllStated c s'
with_core_stated c s' none e h = cc e
with_core_stated c s' (some s) e h = with_groups_stated c s s' c.group_list refl e (h s refl)

nothing_known : (c : Cluster) → AllStated c []
unfolding scoper_lookup
nothing_known c k ns e = cc (ap (λ x. x.known) e)

-- What the scope map that was built says of a key, a document of the cluster that was fetched states:
-- the document is the core group's or that of a version which the list of groups names, and an entry of
-- it, of a resource and no subresource, makes up the key with the group and the version, and says itself
-- whether it is namespaced.
pub build_scoper-Stated :
    (c : Cluster) (s : StaticScoper) (key : String) (ns : Bool)
    → build_scoper c ≡ built s
    → scoper_lookup s key ≡ record { namespaced = ns; known = true }
    → Stated c key ns
unfolding build_scoper
build_scoper-Stated c s key ns e k =
    with_core_stated c s _ e
      (λ s' f.
        collect_stated c "/api/v1" "" "v1" [] s' (inl (refl, refl, refl)) f (nothing_known c))
      key ns k
