-- ===== src/Policy/Types.antt =====
-- internal/policy/types.go: the policy's view of a request, its decisions and the modes.
use kubegate.Prelude.{String, Bool, true, false, List, [], ◌∷◌}

pub record Request : Type 0 where
  pub is_resource_request : Bool
  pub path : String
  pub verb : String
  pub api_group : String
  pub api_version : String
  pub resource : String
  pub subresource : String
  pub namespace : String
  pub name : String

-- Go's zero value of the struct.
abbrev pub zero_request : Request
zero_request = record {
  is_resource_request = false;
  path = "";
  verb = "";
  api_group = "";
  api_version = "";
  resource = "";
  subresource = "";
  namespace = "";
  name = "";
}

-- The reason of a decision: one constructor for each message that the program formats, with the
-- arguments of the format. The wording itself is not modelled.
pub data Reason : Type 0 where
  no_reason : Reason
  outside_scope : String → List String → Reason
  scope_undetermined : String → Reason
  not_in_discovery : String → Reason
  cluster_wide : String → List String → Reason
  path_not_permitted : String → Reason
  legacy_proxy no_verb no_resource_type : Reason
  never_forwarded : String → Reason
  verb_not_forwarded : String → Reason
  verb_requires_mode : String → String → Reason
  not_in_allowlist : String → String → Reason
  upgrade_refused authentication_failed unparseable_path body_too_large : Reason
  json_only : String → Reason

pub record Decision : Type 0 where
  pub allow : Bool
  pub reason : Reason

abbrev pub allowed : Decision
allowed = record { allow = true; reason = no_reason }

-- A composite literal `Decision{Reason: r}`, whose `Allow` is false.
abbrev pub denied : Reason → Decision
denied r = record { allow = false; reason = r }

-- `type Mode string`: a value may be none of the three modes until `parse_mode` has accepted it.
abbrev pub Mode : Type 0
Mode = String

abbrev pub mode_ro_no_secret : Mode
mode_ro_no_secret = "ro-nosecret"

abbrev pub mode_ro_secret : Mode
mode_ro_secret = "ro-secret"

abbrev pub mode_rw : Mode
mode_rw = "rw"

-- From the strictest to the loosest.
abbrev pub all_modes : List Mode
all_modes = mode_ro_no_secret ∷ mode_ro_secret ∷ mode_rw ∷ []
