-- ===== src/Command/Start/Scoped.antt =====
-- From the command line to the namespaces that a request may reach.
mod Tests
use kubegate.Prelude.{
  String, true, false, Option, none, some, List, [], ◌∷◌, ◌≡◌, ◌≢◌, ◌⊎◌, inl, inr, refl, sym, ap,
  ap₂, ◌∙◌, subst,
}
use kubegate.Policy.Types.{Request}
use kubegate.Policy.Scope.{
  ScopeAnswer, StaticScoper, ResourceScoper, scoper_key, scoper_lookup, static_scoper,
}
use kubegate.Policy.Engine.{Engine, authorize}
use kubegate.Policy.Engine.Stages.{KnownClusterScoped, InScope, authorize_iff}
use kubegate.Policy.Modes.Denials.{OneOf}
use kubegate.Discovery.Scoper.{built, build_scoper}
use kubegate.Discovery.Scoper.Known.{Stated, build_scoper-Stated}
use kubegate.Discovery.Fetch.{cluster_of}
use kubegate.Discovery.Fetch.Answered.{IsAnswer, get_json-IsAnswer}
use kubegate.Upstream.{Upstream}
use kubegate.Server.Disk.{Disk}
use kubegate.Command.{ServeConfig}
use kubegate.Command.Start.{Environment, Listening, listening, real_main}
use kubegate.Command.Start.Sound.{IsScoped, IsUsable}
use kubegate.Command.Start.Whole.{real_main-IsRun}

-- A document that the cluster answered with states that the resource is not namespaced.
pub record IsClusterScoped (env : Environment) (up : Upstream) (req : Request) : Type 0 where
  pub stated :
      Stated
        (cluster_of env.client env.decoder up)
        (scoper_key req.api_group req.api_version req.resource)
        false
  pub answer : IsAnswer env.client up env.decoder.resources stated.path stated.entries

answer_parts :
    (a : ScopeAnswer)
    → a.known ≡ true
    → a.namespaced ≡ false
    → a ≡ record { namespaced = false; known = true }
answer_parts a k n = ap₂ (λ x y. record { namespaced = x; known = y }) n k

static-IsClusterScoped :
    (env : Environment) (up : Upstream) (req : Request) (s : StaticScoper)
    → build_scoper (cluster_of env.client env.decoder up) ≡ built s
    → KnownClusterScoped (some (static_scoper s)) req
    → IsClusterScoped env up req
unfolding static_scoper
static-IsClusterScoped env up req s b (k, n) =
    let st =
      build_scoper-Stated (cluster_of env.client env.decoder up) s _ false b (answer_parts _ k n) in
    record {
      stated = st;
      answer = get_json-IsAnswer env.client up env.decoder.resources st.path st.entries st.fetched;
    }

scoped-IsClusterScoped :
    (env : Environment) (c : ServeConfig) (up : Upstream) (scoper : Option ResourceScoper)
    (req : Request)
    → c.namespaces ≢ []
    → IsScoped env c up scoper
    → KnownClusterScoped scoper req
    → IsClusterScoped env up req
scoped-IsClusterScoped env c up scoper req n (inl (none_given, e)) k = absurd (n none_given)
scoped-IsClusterScoped env c up scoper req n (inr (s, e, given, b)) k =
    static-IsClusterScoped env up req s b (subst (λ x. KnownClusterScoped x req) e k)

-- The whole program, with --namespace: where it comes to listen with namespaces, whatever the command
-- line, its engine authorizes a request for a resource only if the request names one of them, or names
-- none and the cluster answered the start's discovery, with 200, by a document which states that the
-- resource is not namespaced. The paths of certificate and key must differ, and random tokens must be
-- long enough, with no white space at their ends.
pub real_main-InScope :
    (env : Environment) (args : List String) (d : Disk) (l : Listening) (req : Request)
    → IsUsable env
    → (real_main env args d).0 ≡ listening l
    → l.options.engine.cfg.namespaces ≢ []
    → req.is_resource_request ≡ true
    → (authorize l.options.engine req).allow ≡ true
    → ((req.namespace ≢ "") × OneOf l.options.engine.cfg.namespaces req.namespace)
      ⊎ ((req.namespace ≡ "") × IsClusterScoped env l.upstream req)
real_main-InScope env args d l req u h given r ok =
    let serving = real_main-IsRun env args d l u h in
    let s = serving.sound in
    elim ((authorize_iff l.options.engine req r).0 ok).1 [
      | inl nothing ↦ absurd (given nothing)
      | inr named ↦ elim named [
        | inl n ↦ inl n
        | inr m ↦ inr (
          m.0,
          scoped-IsClusterScoped env serving.config l.upstream s.scoper req
              (λ e. given (ap (λ x. x.cfg.namespaces) s.engine ∙ e)) s.scoped
              (subst (λ x. KnownClusterScoped x.cfg.scoper req) s.engine m.1),
        )
      ]
    ]
