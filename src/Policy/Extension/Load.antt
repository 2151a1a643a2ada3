-- ===== src/Policy/Extension/Load.antt =====
-- internal/policy/extension.go, `LoadExtension`: a policy file that is read, decoded and validated.
use kubegate.Prelude.{String, Option, none, some, ◌≡◌, refl, subst}
use kubegate.Policy.Rule.{RuleSet}
use kubegate.Policy.Extension.{ExtensionError, Check, validate_extension}

-- `extensionFile`
pub record ExtensionFile : Type 0 where
  pub rules : RuleSet

-- os.ReadFile and yaml.UnmarshalStrict; `none` is an error.
pub record Reader : Type 0 where
  pub read_file : String → Option String
  pub unmarshal_strict : String → Option ExtensionFile

pub data LoadError : Type 0 where
  not_read not_parsed : LoadError
  not_valid : ExtensionError → LoadError

pub data Loaded : Type 0 where
  loaded : RuleSet → Loaded
  not_loaded : LoadError → Loaded

abbrev checked : RuleSet → Check → Loaded
checked rs none = loaded rs
checked rs (some e) = not_loaded (not_valid e)

abbrev parsed : Option ExtensionFile → Loaded
parsed none = not_loaded not_parsed
parsed (some f) = checked f.rules (validate_extension f.rules)

abbrev read : Reader → Option String → Loaded
read r none = not_loaded not_read
read r (some raw) = parsed (r.unmarshal_strict raw)

-- `LoadExtension`
unfoldable pub load_extension : Reader → String → Loaded
load_extension r path = read r (r.read_file path)

checked_valid :
    (rs rs' : RuleSet) (c : Check)
    → validate_extension rs ≡ c
    → checked rs c ≡ loaded rs'
    → validate_extension rs' ≡ none
checked_valid rs rs' none e h = subst (λ x. validate_extension x ≡ none) (cc h) e
checked_valid rs rs' (some err) e h = cc h

parsed_valid :
    (rs : RuleSet) (f : Option ExtensionFile) → parsed f ≡ loaded rs → validate_extension rs ≡ none
parsed_valid rs none h = cc h
parsed_valid rs (some f) h = checked_valid f.rules rs _ refl h

read_valid :
    (r : Reader) (rs : RuleSet) (raw : Option String)
    → read r raw ≡ loaded rs
    → validate_extension rs ≡ none
read_valid r rs none h = cc h
read_valid r rs (some raw) h = parsed_valid rs (r.unmarshal_strict raw) h

-- Rules that are loaded have passed validation.
pub load_extension_valid :
    (r : Reader) (path : String) (rs : RuleSet)
    → load_extension r path ≡ loaded rs
    → validate_extension rs ≡ none
unfolding load_extension
load_extension_valid r path rs h = read_valid r rs (r.read_file path) h
