-- ===== src/Upstream/Probed.antt =====
-- What a new route and its probe say.
use kubegate.Prelude.{
  ℕ, String, true, Option, none, some, List, ◌==◌, ◌≡◌, ◌≢◌, ◌↔◌, ◌⊎◌, ◌<◌, inl, inr, refl, sym,
  ◌∙◌, ap, arith, eq_iff, Bool-cases,
}
use kubegate.Policy.Modes.{has_key}
use kubegate.Server.Response.{Response}
use kubegate.Upstream.{
  Url, Transport, RestConfig, Client, Upstream, upstream, explicit_path, with_base, with_transport,
  with_config, with_contexts, new_upstream, json_request, is_credentials_unavailable, probe_status,
  probe_answer, probe,
}

-- The cluster answers with this status.
abbrev pub Answers : Option Response → ℕ → Type 0
Answers a code = (resp : Response) × ((a ≡ some resp) × (resp.status ≡ code))

-- The statuses that a probe accepts.
abbrev pub IsAccepted : ℕ → Type 0
IsAccepted code = (code < 500) × (code ≢ 401) × (code ≢ 403)

abbrev pub IsRejected : ℕ → Type 0
IsRejected code = (code ≡ 401) ⊎ (code ≡ 403)

probe_status_iff : (name : String) (code : ℕ) → (probe_status name code ≡ none) ↔ IsAccepted code
probe_status_iff name code = ground arith

probe_status-IsRejected :
    (name : String) (code : ℕ)
    → (is_credentials_unavailable (probe_status name code) ≡ true) ↔ IsRejected code
probe_status-IsRejected name code = ground arith

-- No answer, or one with a status that refuses the credentials.
abbrev pub IsUnavailable : Option Response → Type 0
IsUnavailable none = Unit
IsUnavailable (some resp) = IsRejected resp.status

-- An answer with a status that the probe accepts.
abbrev pub IsReady : Option Response → Type 0
IsReady none = ⊥
IsReady (some resp) = IsAccepted resp.status

probe_answer_iff :
    (name : String) (a : Option Response)
    → ((probe_answer name a ≡ none) ↔ IsReady a)
      × ((is_credentials_unavailable (probe_answer name a) ≡ true) ↔ IsUnavailable a)
probe_answer_iff name none = ((λ h. cc h, λ h. absurd h), (λ h. tt, λ h. refl))
probe_answer_iff name (some resp) =
    (probe_status_iff name resp.status, probe_status-IsRejected name resp.status)

-- Where a request can be made at all: the probe succeeds exactly when the cluster answers GET /version
-- with a status under 500 that is neither 401 nor 403; and its error counts as missing credentials
-- exactly when there is no answer, or it is 401 or 403.
pub probe_iff :
    (c : Client) (u : Upstream)
    → c.is_requestable (record u.base { path = "/version" }) ≡ true
    → ((probe c u ≡ none) ↔ IsReady (u.transport (json_request u.base "/version")))
      × ((is_credentials_unavailable (probe c u) ≡ true)
          ↔ IsUnavailable (u.transport (json_request u.base "/version")))
unfolding probe
probe_iff c u r =
    rw r (probe_answer_iff u.context_name (u.transport (json_request u.base "/version")))

-- The context is one that the kubeconfig names, and the transport is that of its configuration.
pub record IsChosen (c : Client) (path name : String) (u : Upstream) : Type 0 where
  pub named : name ≢ ""
  pub same_name : u.context_name ≡ name
  pub names : List String
  pub loaded : c.raw_contexts (explicit_path path) ≡ some names
  pub known : has_key names name ≡ true
  pub config : RestConfig
  pub configured : c.client_config (explicit_path path) name ≡ some config
  pub transport : config.transport ≡ some u.transport

upstream-inj : {a b : Upstream} → upstream a ≡ upstream b → a ≡ b
upstream-inj e = cc e

with_base_parts :
    (name : String) (rt : Transport) (url : Option Url) (u : Upstream)
    → with_base name rt url ≡ upstream u
    → (u.context_name ≡ name) × (u.transport ≡ rt)
with_base_parts name rt none u h = cc h
with_base_parts name rt (some url) u h =
    let e = upstream-inj h in (ap (λ x. x.context_name) (sym e), ap (λ x. x.transport) (sym e))

module _ (c : Client) (path name : String) (u : Upstream) where
  with_transport_parts :
      (cfg : RestConfig) (rt : Option Transport)
      → cfg.transport ≡ rt
      → with_transport c name cfg.host rt ≡ upstream u
      → (u.context_name ≡ name) × (cfg.transport ≡ some u.transport)
  with_transport_parts cfg none e h = cc h
  with_transport_parts cfg (some rt) e h =
      let (n, t) = with_base_parts name rt _ u h in (n, e ∙ ap some (sym t))

  with_config-IsChosen :
      (names : List String) (cfg : Option RestConfig)
      → name ≢ ""
      → c.raw_contexts (explicit_path path) ≡ some names
      → has_key names name ≡ true
      → c.client_config (explicit_path path) name ≡ cfg
      → with_config c name cfg ≡ upstream u
      → IsChosen c path name u
  with_config-IsChosen names none n l k e h = cc h
  with_config-IsChosen names (some cfg) n l k e h =
      let (same, t) = with_transport_parts cfg cfg.transport refl h in
      record {
        named = n;
        same_name = same;
        names = names;
        loaded = l;
        known = k;
        config = cfg;
        configured = e;
        transport = t;
      }

  with_contexts-IsChosen :
      (names : Option (List String))
      → name ≢ ""
      → c.raw_contexts (explicit_path path) ≡ names
      → with_contexts c path name names ≡ upstream u
      → IsChosen c path name u
  with_contexts-IsChosen none n l h = cc h
  with_contexts-IsChosen (some names) n l h = elim (Bool-cases (has_key names name)) [
    | inl k ↦ with_config-IsChosen names _ n l k refl (rw k at h)
    | inr k ↦ cc (rw k at h)
  ]

  -- A route is made only for a named context that the kubeconfig lists, with that context's transport:
  -- there is no fallback to another.
  pub new_upstream-IsChosen : new_upstream c path name ≡ upstream u → IsChosen c path name u
  unfolding new_upstream
  new_upstream-IsChosen h = elim (Bool-cases (name == "")) [
    | inl e ↦ cc (rw e at h)
    | inr e ↦ with_contexts-IsChosen _ (λ n. cc (sym e ∙ (eq_iff name "").1 n)) refl (rw e at h)
  ]
