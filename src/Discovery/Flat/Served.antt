-- ===== src/Discovery/Flat/Served.antt =====
-- Which entries of a resource list and of a group list are served, by what their names say.
use Prim.Native.String.{◌∷◌, ◌++◌ as str_append}
use kubegate.Prelude.{
  String, true, ◌==◌, ◌≡◌, ◌≢◌, ◌↔◌, ◌⊎◌, inl, inr, refl, sym, ap, subst, ◌∙◌, Bool-cases, eq_iff,
}
use kubegate.Text.{Cut, cut}
use kubegate.Text.Laws.{Lacks, cut_join, cut-Lacks, cut_whole, cut-append, cut_of_Lacks}
use kubegate.Json.{Json, object, Fields, lookup, str}
use kubegate.Policy.Types.{Request, zero_request}
use kubegate.Policy.Rule.Semantics.{slash}
use kubegate.Policy.Engine.{Engine, authorize_resource_kind, permits_group}
use kubegate.Discovery.Documents.{GroupVersion, split_group_version, probe_cut}
use kubegate.Discovery.Flat.{keeps_resource, keeps_group}

-- A text is the one part, a slash, and the other part, where the first part holds no slash.
abbrev pub Joins : String → String → String → Type 0
Joins s p q = Lacks 47 p × (s ≡ str_append p (slash ∷ q))

-- A groupVersion with its group and its version; it is the version where it holds no slash.
abbrev pub IsGroupVersion : String → String → String → Type 0
IsGroupVersion s group version = Joins s group version ⊎ (Lacks 47 s × (group ≡ "") × (version ≡ s))

-- The name of an entry with its resource and its subresource, which may be missing.
abbrev pub IsName : String → String → String → Type 0
IsName s resource sub = Joins s resource sub ⊎ (Lacks 47 s × (resource ≡ s) × (sub ≡ ""))

abbrev pub listing : String → String → String → Request
listing group version resource = record zero_request {
  is_resource_request = true;
  verb = "list";
  api_group = group;
  api_version = version;
  resource = resource;
}

abbrev pub getting : String → String → String → String → Request
getting group version resource sub = record zero_request {
  is_resource_request = true;
  verb = "get";
  api_group = group;
  api_version = version;
  resource = resource;
  subresource = sub;
  name = "probe";
}

abbrev pub Permits : Engine → Request → Type 0
Permits e req = (authorize_resource_kind e req).allow ≡ true

-- The engine permits a list of the resource, or a get of the subresource where there is one.
abbrev pub PermitsParts : Engine → String → String → String → String → Type 0
PermitsParts e group version resource sub =
    ((sub ≡ "") × Permits e (listing group version resource))
    ⊎ ((sub ≢ "") × Permits e (getting group version resource sub))

abbrev pub ServedResource : Engine → String → Json → Type 0
ServedResource e group_version x =
    (r : Fields) × (x ≡ object r)
    × (group : String) × (version : String) × IsGroupVersion group_version group version
    × (resource : String) × (sub : String) × IsName (str (lookup "name" r)) resource sub
    × PermitsParts e group version resource sub

abbrev pub ServedGroup : Engine → Json → Type 0
ServedGroup e x = (g : Fields) × (x ≡ object g) × (permits_group e (str (lookup "name" g)) ≡ true)

abbrev parts : String → String → Cut
parts before after = record { before = before; after = after; found = true }

probe_iff :
    (e : Engine) (gv : GroupVersion) (resource sub : String)
    → Permits e (probe_cut gv (parts resource sub))
      ↔ PermitsParts e gv.group gv.version resource sub
probe_iff e gv resource sub = elim (Bool-cases (sub == "")) [
  | inl t ↦
      rw ((eq_iff sub "").0 t)
        (λ h. inl (refl, h), elim [ inl (n, h) ↦ h | inr (n, h) ↦ absurd (n refl) ])
  | inr f ↦ rw f (
    λ h. inr ((λ n. cc ((eq_iff sub "").1 n, f)), h),
    elim [ inl (n, h) ↦ cc ((eq_iff sub "").1 n, f) | inr (n, h) ↦ h ],
  )
]

cut-IsName : (s : String) → IsName s (cut 47 s).before (cut 47 s).after
cut-IsName s = elim (Bool-cases (cut 47 s).found) [
  | inl t ↦ inl (cut-Lacks slash s, cut_join slash s t)
  | inr f ↦ let (b, a) = cut_whole slash s f in inr (subst (Lacks 47) b (cut-Lacks slash s), b, a)
]

IsName-cut :
    (s resource sub : String)
    → IsName s resource sub
    → ((cut 47 s).before ≡ resource) × ((cut 47 s).after ≡ sub)
IsName-cut s resource sub (inl (l, e)) =
    let c : cut 47 s ≡ _ = ap (cut 47) e ∙ cut-append slash resource sub l in
    (ap (λ x. x.before) c, ap (λ x. x.after) c)
IsName-cut s resource sub (inr (l, r, n)) =
    let c = cut_of_Lacks slash s l in (ap (λ x. x.before) c ∙ sym r, ap (λ x. x.after) c ∙ sym n)

split-IsGroupVersion :
    (s : String) → IsGroupVersion s (split_group_version s).group (split_group_version s).version
unfolding split_group_version
split-IsGroupVersion s = elim (Bool-cases (cut 47 s).found) [
  | inl t ↦ rw t (inl (cut-Lacks slash s, cut_join slash s t))
  | inr f ↦ rw f (inr (subst (Lacks 47) (cut_whole slash s f).0 (cut-Lacks slash s), refl, refl))
]

IsGroupVersion-split :
    (s group version : String)
    → IsGroupVersion s group version
    → split_group_version s ≡ record { group = group; version = version }
unfolding split_group_version
IsGroupVersion-split s group version (inl (l, e)) =
    ap split_group_version e ∙ rw (cut-append slash group version l) refl
IsGroupVersion-split s group version (inr (l, g, v)) = rw (cut_of_Lacks slash s l, g, v) refl

object-inj : {a b : Fields} → object a ≡ object b → a ≡ b
object-inj h = cc h

probe_of_cut :
    (e : Engine) (gv : GroupVersion) (s : String)
    → Permits e (probe_cut gv (cut 47 s))
      ↔ PermitsParts e gv.group gv.version (cut 47 s).before (cut 47 s).after
probe_of_cut e gv s = probe_iff e gv (cut 47 s).before (cut 47 s).after

pub keeps_resource_iff :
    (e : Engine) (s : String) (x : Json)
    → (keeps_resource e (split_group_version s) x ≡ true) ↔ ServedResource e s x
unfolding keeps_resource
keeps_resource_iff e s (object r) =
    let gv = split_group_version s in
    let n = str (lookup "name" r) in
    let (to, from) = probe_of_cut e gv n in
    (
      λ h. (
        r,
        refl,
        gv.group,
        gv.version,
        split-IsGroupVersion s,
        (cut 47 n).before,
        (cut 47 n).after,
        cut-IsName n,
        to h,
      ),
      λ (r', o, g, v, i, resource, sub, j, p).
          let n' : IsName n resource sub =
            subst (λ f. IsName (str (lookup "name" f)) resource sub) (sym (object-inj o)) j in
          let (b, a) = IsName-cut n resource sub n' in
          from (
            rw (b, a)
              (subst (λ w. PermitsParts e w.group w.version resource sub)
                (sym (IsGroupVersion-split s g v i)) p)),
    )
keeps_resource_iff e s x = (λ h. cc h, λ (r, o, _, _, _, _, _, _, _). cc o)

pub keeps_group_iff : (e : Engine) (x : Json) → (keeps_group e x ≡ true) ↔ ServedGroup e x
unfolding keeps_group
keeps_group_iff e (object g) = (
  λ h. (g, refl, h),
  λ (g', o, h). subst (λ f. permits_group e (str (lookup "name" f)) ≡ true) (sym (object-inj o)) h,
)
keeps_group_iff e x = (λ h. cc h, λ (g, o, q). cc o)
