-- ===== src/Command/Start/Scoped/Tests.antt =====
-- A request for a pod of the namespace that a listener is started with.
use kubegate.Prelude.{[], ◌≡◌, ◌≢◌, ◌⊎◌, refl}
use kubegate.Policy.Modes.Denials.{OneOf}
use kubegate.Command.Start.Tests.{
  environment, empty_disk, args, served, environment-IsUsable, started, get_pod, get_pod_allowed,
}
use kubegate.Command.Start.Scoped.{IsClusterScoped, real_main-InScope}

one_given : served.options.engine.cfg.namespaces ≢ []
one_given h = absurd (cc h)

real_main-InScope_example :
    ((get_pod.namespace ≢ "") × OneOf served.options.engine.cfg.namespaces get_pod.namespace)
    ⊎ ((get_pod.namespace ≡ "") × IsClusterScoped (environment 200) served.upstream get_pod)
real_main-InScope_example =
    real_main-InScope (environment 200) args empty_disk served get_pod environment-IsUsable started
      one_given refl get_pod_allowed
