-- ===== src/Command.antt =====
-- cmd/kubegate/serve.go: the configuration that the command line gives, and its validation.
pub mod Validation
pub mod Settings
pub mod Extended
pub mod Start
mod Tests
use kubegate.Prelude.{
  String, Bool, true, false, not, Option, none, some, List, [], ◌∷◌, ◌==◌, if◌then◌else◌,
}
use kubegate.Text.{split}
use kubegate.Text.Lower.{trim_white_space}
use kubegate.Policy.Types.{Mode, mode_ro_no_secret}
use kubegate.Policy.Rule.{RuleSet}
use kubegate.Policy.Modes.{parse_mode}
use kubegate.Policy.Scope.{ResourceScoper}
use kubegate.Command.Settings.{Setting, Home, Flags, flags_or_error}
use kubegate.Policy.Extension.Load.{Reader, LoadError, Loaded, loaded, not_loaded, load_extension}
use kubegate.Policy.Engine.{Config}

pub record ServeConfig : Type 0 where
  pub context_name : String
  pub mode : Mode
  pub listen : String
  pub namespaces : List String
  pub policy_path : String
  pub kubeconfig : String
  pub tls_dir : String
  pub token_file : String
  pub rotate_token : Bool
  pub tls_sans : List String
  pub audit_path : String
  pub extra_rules : RuleSet

-- The loop of `parseFlags` over the parts of --namespace.
unfoldable pub keep_names : List String → List String
keep_names [] = []
keep_names (ns ∷ rest) =
    let trimmed = trim_white_space ns in
    if not (trimmed == "") then trimmed ∷ keep_names rest else keep_names rest

unfoldable pub parse_namespaces : String → List String
unfolding keep_names
parse_namespaces raw = keep_names (split b',' raw)

-- The configuration that `parseFlags` makes of the flags.
unfoldable pub config_of : Flags → ServeConfig
unfolding parse_namespaces
config_of f = record {
  context_name = f.context_name;
  mode = f.mode;
  listen = f.listen;
  namespaces = parse_namespaces f.namespaces;
  policy_path = f.policy_path;
  kubeconfig = f.kubeconfig;
  tls_dir = f.tls_dir;
  token_file = f.token_file;
  rotate_token = f.rotate_token;
  tls_sans = f.tls_sans;
  audit_path = f.audit_path;
  extra_rules = [];
}

abbrev pub config_or_error : Option Flags → Option ServeConfig
config_or_error none = none
config_or_error (some f) = some (config_of f)

-- `parseFlags`, over what package flag finds in the arguments: `none` is its error.
unfoldable pub parse_flags :
    Home → (List String → Option (List Setting)) → List String → Option ServeConfig
unfolding config_of
parse_flags home flag_set args = config_or_error (flags_or_error home (flag_set args))

-- What the start takes from outside: whether net.SplitHostPort accepts an address, and the reading of a
-- policy file.
pub record Outside : Type 0 where
  pub is_host_port : String → Bool
  pub policy_files : Reader

pub data ConfigError : Type 0 where
  no_context unknown_mode no_listen : ConfigError
  listen_not_host_port policy_misplaced : ConfigError
  policy_failed : LoadError → ConfigError

-- An error, or the configuration with the rules of the policy file.
pub data Validated : Type 0 where
  valid : ServeConfig → Validated
  invalid : ConfigError → Validated

abbrev pub adopt_loaded : ServeConfig → Loaded → Validated
adopt_loaded c (loaded rs) = valid (record c { extra_rules = rs })
adopt_loaded c (not_loaded e) = invalid (policy_failed e)

unfoldable pub validate_policy : Outside → ServeConfig → Validated
validate_policy o c =
    if not (c.policy_path == "")
    then if not (c.mode == mode_ro_no_secret)
      then invalid policy_misplaced
      else adopt_loaded c (load_extension o.policy_files c.policy_path)
    else valid c

abbrev pub validate_listen : Outside → ServeConfig → Validated
validate_listen o c =
    if c.listen == ""
    then invalid no_listen
    else if not (o.is_host_port c.listen)
    then invalid listen_not_host_port
    else validate_policy o c

abbrev pub validate_mode : Outside → ServeConfig → Option Mode → Validated
validate_mode o c none = invalid unknown_mode
validate_mode o c (some m) = validate_listen o c

-- `validate`
unfoldable pub validate : Outside → ServeConfig → Validated
validate o c =
    if c.context_name == "" then invalid no_context else validate_mode o c (parse_mode c.mode)

-- The configuration that `run` gives to NewEngine.
abbrev pub engine_config : ServeConfig → Option ResourceScoper → Config
engine_config c scoper = record {
  mode = c.mode;
  namespaces = c.namespaces;
  extra = c.extra_rules;
  scoper = scoper;
}
