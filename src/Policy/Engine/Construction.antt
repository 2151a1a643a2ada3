-- ===== src/Policy/Engine/Construction.antt =====
-- When an engine is built.
use kubegate.Prelude.{◌≡◌, refl, ◌≢◌, ◌↔◌, ◌⊎◌, true, [], ◌∷◌, arith, eq_iff}
use kubegate.Policy.Types.{mode_ro_no_secret, mode_ro_secret, mode_rw, all_modes}
use kubegate.Policy.Modes.{parse_mode}
use kubegate.Policy.Rule.{RuleSet}
use kubegate.Policy.Modes.Denials.{OneOf}
use kubegate.Policy.Engine.{
  Config, EngineError, engine, refused, unknown_mode, policy_needs_strict_mode, new_engine,
  is_empty,
}

is_empty_iff : (rs : RuleSet) → (is_empty rs ≡ true) ↔ (rs ≡ [])
is_empty_iff [] = (λ _. refl, λ _. refl)
is_empty_iff (r ∷ rs) = ground arith

-- `NewEngine` gives an engine, with the configuration as it was, exactly when the mode is one of
-- the three and --policy rules come with ro-nosecret only.
pub new_engine_iff :
    (cfg : Config)
    → (new_engine cfg ≡ engine (record { cfg = cfg }))
      ↔ (OneOf all_modes cfg.mode × ((cfg.extra ≡ []) ⊎ (cfg.mode ≡ mode_ro_no_secret)))
unfolding new_engine parse_mode
new_engine_iff cfg = ground (
  arith,
  is_empty_iff cfg.extra,
  eq_iff cfg.mode mode_ro_no_secret,
  eq_iff cfg.mode mode_ro_secret,
  eq_iff cfg.mode mode_rw,
)

-- Otherwise the error names the mode: as unknown where it is none of the three, and as one in
-- which --policy has no meaning where it is.
pub new_engine_errors :
    (cfg : Config) (err : EngineError)
    → new_engine cfg ≡ refused err
    → ((err ≡ unknown_mode cfg.mode) × ¬ OneOf all_modes cfg.mode)
      ⊎ ((err ≡ policy_needs_strict_mode cfg.mode)
          × OneOf all_modes cfg.mode
          × (cfg.extra ≢ [])
          × (cfg.mode ≢ mode_ro_no_secret))
unfolding new_engine parse_mode
new_engine_errors cfg err h = ground (
  arith,
  is_empty_iff cfg.extra,
  eq_iff cfg.mode mode_ro_no_secret,
  eq_iff cfg.mode mode_ro_secret,
  eq_iff cfg.mode mode_rw,
)
