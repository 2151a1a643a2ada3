-- ===== src/Command/Extended.antt =====
-- Validation changes the rules only.
use kubegate.Prelude.{refl, [], Option, none, some, ◌==◌, ◌≡◌, sym, inl, inr, Bool-cases}
use kubegate.Policy.Types.{Mode, mode_ro_no_secret}
use kubegate.Policy.Modes.{parse_mode}
use kubegate.Policy.Rule.{RuleSet}
use kubegate.Policy.Extension.Load.{Loaded, loaded, not_loaded, load_extension}
use kubegate.Command.Settings.{Flags}
use kubegate.Command.{
  config_of, ServeConfig, Outside, valid, adopt_loaded, validate_policy, validate_listen,
  validate_mode, validate,
}

-- One configuration is the other with these rules or those.
abbrev pub Extends : ServeConfig → ServeConfig → Type 0
Extends c c' = (rs : RuleSet) × (c' ≡ record c { extra_rules = rs })

module _ (c c' : ServeConfig) where
  valid-Extends : (rs : RuleSet) → valid (record c { extra_rules = rs }) ≡ valid c' → Extends c c'
  valid-Extends rs h = (rs, cc (sym h))

  adopt_loaded-Extends : (r : Loaded) → adopt_loaded c r ≡ valid c' → Extends c c'
  adopt_loaded-Extends (loaded rs) h = valid-Extends rs h
  adopt_loaded-Extends (not_loaded e) h = cc h

  validate_policy-Extends : (o : Outside) → validate_policy o c ≡ valid c' → Extends c c'
  unfolding validate_policy
  validate_policy-Extends o h = elim (Bool-cases (c.policy_path == "")) [
    | inl n ↦ valid-Extends c.extra_rules (rw n at h)
    | inr p ↦ elim (Bool-cases (c.mode == mode_ro_no_secret)) [
      | inl s ↦ adopt_loaded-Extends (load_extension o.policy_files c.policy_path) (rw (p, s) at h)
      | inr m ↦ cc (rw (p, m) at h)
    ]
  ]

  validate_listen-Extends : (o : Outside) → validate_listen o c ≡ valid c' → Extends c c'
  validate_listen-Extends o h = elim (Bool-cases (c.listen == "")) [
    | inl e ↦ cc (rw e at h)
    | inr l ↦ elim (Bool-cases (o.is_host_port c.listen)) [
      | inl a ↦ validate_policy-Extends o (rw (l, a) at h)
      | inr n ↦ cc (rw (l, n) at h)
    ]
  ]

  validate_mode-Extends :
      (o : Outside) (m : Option Mode) → validate_mode o c m ≡ valid c' → Extends c c'
  validate_mode-Extends o none h = cc h
  validate_mode-Extends o (some m) h = validate_listen-Extends o h

  -- A configuration that passes validation is what it was, but for the rules of its policy file.
  pub validate-Extends : (o : Outside) → validate o c ≡ valid c' → Extends c c'
  unfolding validate
  validate-Extends o h = elim (Bool-cases (c.context_name == "")) [
    | inl e ↦ cc (rw e at h)
    | inr n ↦ validate_mode-Extends o (parse_mode c.mode) (rw n at h)
  ]

-- The flags give no rules.
pub config_of-extra : (f : Flags) → (config_of f).extra_rules ≡ []
unfolding config_of
config_of-extra f = refl
