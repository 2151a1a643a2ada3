-- ===== src/Command/Start/Stopped.antt =====
-- What stops a start.
use kubegate.Prelude.{Bool, true, false, ◌≡◌}
use kubegate.Policy.Engine.{Engine}
use kubegate.Discovery.Scoper
use kubegate.Upstream.{Upstream}
use kubegate.Server.Disk.{Disk}
use kubegate.Server.Certificate
use kubegate.Server.TokenFile
use kubegate.Server.TokenFile.Kept.{IsFresh}
use kubegate.Command.Start.{
  Environment, StartError, no_engine, no_certificate, no_token, token_refused, audit_log_not_opened,
  handler_incomplete, Started, stopped,
}

-- The errors that a start can end with: all but those of NewEngine, authn.New and NewHandler.
abbrev pub CanStop : StartError → Type 0
CanStop (no_engine e) = ⊥
CanStop token_refused = ⊥
CanStop handler_incomplete = ⊥
CanStop e = Unit

-- The errors that come before the identity material is looked for.
abbrev pub is_early : StartError → Bool
is_early (no_certificate e) = false
is_early (no_token e) = false
is_early token_refused = false
is_early audit_log_not_opened = false
is_early handler_incomplete = false
is_early e = true

module _ (env : Environment) (fresh : IsFresh env.token_os) (start : Disk) where
  -- What a step of a start from this disk says of the error that it ends with.
  abbrev Halts : Started × Disk → Type 0
  Halts r = (e : StartError) → r.0 ≡ stopped e → CanStop e × (is_early e ≡ true → r.1 ≡ start)
