-- ===== src/Command/Settings.antt =====
-- cmd/kubegate/serve.go, the flag set of `parseFlags`, with what package flag makes of arguments.
use kubegate.Prelude.{String, Bool, false, Option, none, some, List, [], ◌∷◌, ◌==◌, if◌then◌else◌}

-- What the arguments set, in order: a flag's text, or whether a Boolean flag is on.
pub data Setting : Type 0 where
  text : String → String → Setting
  switch : String → Bool → Setting

-- os.UserHomeDir, `none` where there is none, and filepath.Join.
pub record Home : Type 0 where
  pub user_home_dir : Option String
  pub join : String → String → String

-- The values of the flags.
pub record Flags : Type 0 where
  pub context_name : String
  pub mode : String
  pub listen : String
  pub namespaces : String
  pub policy_path : String
  pub kubeconfig : String
  pub tls_dir : String
  pub token_file : String
  pub rotate_token : Bool
  pub tls_sans : List String
  pub audit_path : String

abbrev kubegate_dir : (String → String → String) → Option String → String
kubegate_dir join none = ".kubegate"
kubegate_dir join (some home) = join home ".kubegate"

-- `defaultDir`
unfoldable pub default_dir : Home → String
default_dir h = kubegate_dir h.join h.user_home_dir

-- A flag of `StringVar` or `String`: what was set last, or the default.
unfoldable pub string_var : String → String → List Setting → String
string_var name value [] = value
string_var name value (text n v ∷ rest) = string_var name (if n == name then v else value) rest
string_var name value (switch n on ∷ rest) = string_var name value rest

-- A flag of `BoolVar`.
unfoldable pub bool_var : String → Bool → List Setting → Bool
bool_var name value [] = value
bool_var name value (text n v ∷ rest) = bool_var name value rest
bool_var name value (switch n on ∷ rest) = bool_var name (if n == name then on else value) rest

-- A flag of `Var` with a `stringSlice`, which collects what is set.
unfoldable pub string_slice : String → List Setting → List String
string_slice name [] = []
string_slice name (text n v ∷ rest) =
    let more = string_slice name rest in if n == name then v ∷ more else more
string_slice name (switch n on ∷ rest) = string_slice name rest

-- The flags that `parseFlags` defines.
unfoldable pub flags_of : Home → List Setting → Flags
unfolding default_dir string_var bool_var string_slice
flags_of h settings = record {
  context_name = string_var "context" "" settings;
  mode = string_var "mode" "" settings;
  listen = string_var "listen" "" settings;
  namespaces = string_var "namespace" "" settings;
  policy_path = string_var "policy" "" settings;
  kubeconfig = string_var "kubeconfig" "" settings;
  tls_dir = string_var "tls-dir" (default_dir h) settings;
  token_file = string_var "token-file" (h.join (default_dir h) "token") settings;
  rotate_token = bool_var "rotate-token" false settings;
  tls_sans = string_slice "tls-san" settings;
  audit_path = string_var "audit-log" "" settings;
}

abbrev pub flags_or_error : Home → Option (List Setting) → Option Flags
flags_or_error h none = none
flags_or_error h (some settings) = some (flags_of h settings)
