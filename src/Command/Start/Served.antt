-- ===== src/Command/Start/Served.antt =====
-- From the command line to what a client receives.
mod Tests
use kubegate.Prelude.{String, true, some, List, ◌≡◌, sym, ap, ◌∙◌, subst, eq_iff}
use kubegate.Policy.Types.{mode_ro_no_secret}
use kubegate.Policy.Engine.{Engine, redaction_enabled}
use kubegate.Server.Http.{HttpRequest}
use kubegate.Server.Handler.{forward, authorize_request, rewrite}
use kubegate.Server.Response.{Response, expects_json}
use kubegate.Server.Disk.{Disk}
use kubegate.Server.Serve.{Outside, answering, serve}
use kubegate.Server.Serve.Delivered.{IsDelivered, serve-IsDelivered}
use kubegate.Command.Start.{Environment, Listening, listening, wired, real_main}
use kubegate.Command.Start.Sound.{IsUsable}
use kubegate.Command.Start.Whole.{real_main-IsRun}

strict_redacts : (e : Engine) → e.cfg.mode ≡ mode_ro_no_secret → redaction_enabled e ≡ true
unfolding redaction_enabled
strict_redacts e h = (eq_iff e.cfg.mode mode_ro_no_secret).1 h

listening-mode :
    (env : Environment) (args : List String) (d : Disk) (l : Listening)
    → IsUsable env
    → (real_main env args d).0 ≡ listening l
    → l.logger.mode ≡ mode_ro_no_secret
    → l.options.engine.cfg.mode ≡ mode_ro_no_secret
listening-mode env args d l u h strict =
    let s = (real_main-IsRun env args d l u h).sound in
    ap (λ e. e.cfg.mode) s.engine ∙ sym (ap (λ x. x.mode) s.logger) ∙ strict

-- The whole program: where it comes to listen in ro-nosecret, whatever the command line, and the
-- handler forwards a request over the route that it was started with, and the cluster's answer is a
-- successful one to a discovery request or to a request for a resource (logs aside), then the client
-- receives nothing but a single body that redaction inspected (of which a document whose kind ends in List
-- and that has no items is passed as it came), frames whose objects are clean, or a message of the
-- proxy's own, or the beginning of these. The paths of certificate and key must differ, and random tokens must be long
-- enough, with no white space at their ends.
pub real_main-IsDelivered :
    (env : Environment) (args : List String) (d : Disk) (l : Listening) (w : Outside)
    (r out : HttpRequest) (resp : Response)
    → IsUsable env
    → (real_main env args d).0 ≡ listening l
    → l.logger.mode ≡ mode_ro_no_secret
    → (authorize_request l.options r).action ≡ forward out
    → l.upstream.transport (rewrite (wired l w).base out) ≡ some resp
    → expects_json
        (authorize_request l.options r).request
        (answering (rewrite (wired l w).base out) resp)
      ≡ true
    → IsDelivered
        (wired l w)
        l.options.engine
        (answering (rewrite (wired l w).base out) resp)
        (serve (wired l w) l.options r).recorded.wire.body
real_main-IsDelivered env args d l w r out resp u h strict f a x =
    serve-IsDelivered (wired l w) l.options r out resp
      (strict_redacts l.options.engine (listening-mode env args d l u h strict)) f a x
