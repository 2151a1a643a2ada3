-- ===== src/Command/Start/Tests.antt =====
-- A strict start for one namespace, from an empty disk, and one whose credentials have expired.
use Prim.Native.String.{◌++◌ as str_append}
use mathlib.Core.Option.{some-injective}
use kubegate.Server.Tests.{pods_info}
use kubegate.Prelude.{
  ℕ, ◌≡◌, ◌≢◌, refl, sym, ap, ◌∙◌, Option, subst, String, true, false, none, some, List, [], ◌∷◌,
  ◌==◌, ◌&&◌, arith, eq_iff,
}
use kubegate.Text.Split.{cut_prefix-append}
use kubegate.Text.{cut_prefix, split, contains, cut}
use kubegate.Text.Lower.{trim_white_space, trim_left, trim_right, is_white_space}
use kubegate.Policy.Types.{Request, zero_request}
use kubegate.Policy.Modes.{
  has_key, parse_mode, universal_deny_decision, universal_deny_rules, interactive_rule,
  token_request_rule, csr_write_rule, csr_decide_rule, verb_gate_decision, mode_resource_decision,
  ro_no_secret_allow,
}
use kubegate.Policy.Scope.{scoper_key, static_scoper, is_listed, namespace_decision}
use kubegate.Policy.Rule.{
  match_any, match_one, cut_matches, entry_matches, matches_resource, rule_matches, matches,
}
use kubegate.Policy.Engine.{new_engine, authorize, authorize_resource_kind}
use kubegate.Authn.{new_authenticator}
use kubegate.Server.Disk.{Disk, find, store, written}
use kubegate.Server.Certificate.{
  tls_config, cert_path, key_path, add_san, add_sans, subject_names, write_cert, write_key,
  cert_of_disk, load_or_create_cert,
}
use kubegate.Server.TokenFile.{create_token, token_of_disk, load_or_create_token}
use kubegate.Server.TokenFile.Kept.{IsLong, IsFresh}
use kubegate.Discovery.Scoper.{
  collect_entries, collect, collect_versions, collect_groups, build_scoper, assign,
}
use kubegate.Discovery.Fetch.{get_json}
use kubegate.Upstream.{Upstream, Transport, new_upstream, probe}
use kubegate.Command.Settings.{Setting, text, Flags, flags_of}
use kubegate.Command.{
  config_of, parse_namespaces, keep_names, parse_flags, validate, validate_policy,
}
use kubegate.Command.Start.{
  Environment, flags_given, Listening, standard_error, listening, with_audit, with_route, run,
  real_main,
}
use kubegate.Command.Start.Whole.{SeparateFiles, IsServing, real_main-IsServing, real_main-secrets}
use kubegate.Command.Start.Stores.{IsSeparate}
use kubegate.Command.Start.Sound.{IsUsable}

abbrev drawn : String
drawn = "0123456789abcdef0123456789abcdef"

abbrev flags : Flags
flags = record {
  context_name = "prod";
  mode = "ro-nosecret";
  listen = "192.168.5.2:8443";
  namespaces = "dev";
  policy_path = "";
  kubeconfig = "";
  tls_dir = "/tls";
  token_file = "/home/dev/.kubegate/token";
  rotate_token = false;
  tls_sans = [];
  audit_path = "";
}

-- Flags as pairs of a name with two dashes and a value.
abbrev pub prepend : Option String → String → Option (List Setting) → Option (List Setting)
prepend (some name) value (some settings) = some (text name value ∷ settings)
prepend name value settings = none

unfoldable pub read_pairs : List String → Option (List Setting)
read_pairs [] = some []
read_pairs (name ∷ []) = none
read_pairs (name ∷ value ∷ rest) =
    let more = read_pairs rest in prepend (cut_prefix name "--") value more

abbrev pub flag_args : List String
flag_args =
    "--context" ∷ "prod" ∷ "--mode" ∷ "rw" ∷ "--mode" ∷ "ro-nosecret" ∷ "--listen"
    ∷ "192.168.5.2:8443" ∷ "--namespace" ∷ "dev" ∷ "--tls-dir" ∷ "/tls" ∷ []

abbrev pub args : List String
args = "serve" ∷ flag_args

abbrev answering : ℕ → Transport
answering code r = some (record {
  status = code;
  content_type = "application/json";
  path = r.path;
  follow = "";
  body = 123 ∷ 125 ∷ [];
  reads = true;
  content_length = none;
  closes = true;
  chunks = [];
})

-- A cluster that answers everything with one status, and has pods.
abbrev pub environment : ℕ → Environment
environment code = record {
  flag_set = read_pairs;
  home = record {
    user_home_dir = some "/home/dev";
    join = λ dir name. str_append dir (str_append "/" name);
  };
  config = record {
    is_host_port = λ a. true;
    policy_files = record { read_file = λ p. none; unmarshal_strict = λ raw. none };
  };
  client = record {
    raw_contexts = λ p. some ("prod" ∷ []);
    client_config = λ p name.
        some (record { host = "https://10.0.0.1:6443/"; transport = some (answering code) });
    parse_url = λ s. some (record { scheme = "https"; host = "10.0.0.1:6443"; path = "/" });
    is_requestable = λ u. true;
  };
  decoder = record {
    resources = λ b. some (record { name = "pods"; namespaced = some true } ∷ []);
    groups = λ b. some [];
  };
  certificates = record {
    join = λ dir name. str_append dir (str_append "/" name);
    parse_ip = λ s. some (127 ∷ 0 ∷ 0 ∷ 1 ∷ []);
    split_host = λ s. some "192.168.5.2";
    is_key_pair = λ cert key. cert == "CERT" && key == "KEY";
  };
  cert_os = record {
    random_serial = some 4096;
    now = 1700000000;
    sign = λ t. some ("CERT", "KEY");
    can_make_dir = true;
    can_secure_dir = true;
    can_read = λ p. true;
    can_write = λ p. true;
    can_secure_key = true;
    after_failed_write = λ d. d;
  };
  token_os = record {
    dir_of = λ p. "/home/dev/.kubegate";
    can_make_dir = true;
    can_secure_dir = true;
    can_read = true;
    can_write = true;
    can_secure_file = true;
    random_token = some drawn;
    after_failed_write = λ d. d;
  };
  opens_log = λ p. true;
  factory = λ r. some pods_info;
}

abbrev pub empty_disk : Disk
empty_disk = record { files = []; dirs = [] }

drawn_fresh : (trim_white_space (str_append drawn "\n") ≡ drawn) × IsLong drawn
unfolding trim_white_space trim_left trim_right is_white_space
drawn_fresh = (refl, refl)

os-IsFresh : (code : ℕ) → IsFresh (environment code).token_os
os-IsFresh code tok e =
    subst (λ t. (trim_white_space (str_append t "\n") ≡ t) × IsLong t) (some-injective _ _ e)
      drawn_fresh

abbrev slash_crt : String
slash_crt = "/tls.crt"

different : slash_crt ≢ "/tls.key"
different = ground (arith, eq_iff "/tls.crt" "/tls.key")

apart :
    (dir : String)
    → cert_path (environment 200).certificates dir ≢ key_path (environment 200).certificates dir
apart dir e = different (
    some-injective _ _ (
      sym (cut_prefix-append dir "/tls.crt")
      ∙ ap (λ s. cut_prefix s dir) e
      ∙ cut_prefix-append dir "/tls.key"))

pub environment-IsUsable : IsUsable (environment 200)
environment-IsUsable = record { apart = apart; fresh = os-IsFresh 200 }

given : flags_given (environment 200) flag_args ≡ some flags
unfolding flags_of read_pairs cut_prefix
given = refl

rest-inj : {x y : String} {xs ys : List String} → x ∷ xs ≡ y ∷ ys → xs ≡ ys
rest-inj h = cc h

token_apart : SeparateFiles (environment 200) args
token_apart rest f same e =
    subst (λ x. IsSeparate (environment 200) x.token_file x.tls_dir)
      (some-injective _ _ (sym given ∙ ap (flags_given (environment 200)) (rest-inj same) ∙ e))
      (
        ground (arith, eq_iff "/tls/tls.crt" "/home/dev/.kubegate/token"),
        ground (arith, eq_iff "/tls/tls.key" "/home/dev/.kubegate/token"),
      )

abbrev up : Upstream
up = record {
  context_name = "prod";
  base = record { scheme = "https"; host = "10.0.0.1:6443"; path = "" };
  transport = answering 200;
}

abbrev pub served : Listening
served = record {
  address = "192.168.5.2:8443";
  upstream = up;
  options = record {
    engine = record {
      cfg = record {
        mode = "ro-nosecret";
        namespaces = "dev" ∷ [];
        extra = [];
        scoper = some (static_scoper (("/v1/pods", true) ∷ []));
      };
    };
    auth = record { token = drawn };
    factory = λ r. some pods_info;
  };
  logger = record { mode = "ro-nosecret"; context = "prod" };
  audit_out = standard_error;
  tls = tls_config "CERT" "KEY";
  token = drawn;
}

pub started : (real_main (environment 200) args empty_disk).0 ≡ listening served
unfolding real_main run with_audit with_route parse_flags flags_of read_pairs cut_prefix config_of
    parse_namespaces keep_names split cut trim_white_space trim_left trim_right is_white_space
    validate validate_policy parse_mode has_key new_upstream probe build_scoper collect
    collect_entries collect_versions collect_groups assign scoper_key contains get_json new_engine
    load_or_create_cert cert_of_disk write_cert write_key written find store subject_names add_sans
    add_san load_or_create_token token_of_disk create_token new_authenticator
started = refl

real_main-IsServing_example :
    IsServing (environment 200) args served (real_main (environment 200) args empty_disk).1
real_main-IsServing_example =
    real_main-IsServing (environment 200) args empty_disk served environment-IsUsable token_apart
      started

abbrev pub get_pod : Request
get_pod = record zero_request {
  is_resource_request = true;
  verb = "get";
  api_version = "v1";
  resource = "pods";
  namespace = "dev";
}

pub get_pod_allowed : (authorize served.options.engine get_pod).allow ≡ true
unfolding authorize authorize_resource_kind universal_deny_decision universal_deny_rules
    interactive_rule token_request_rule csr_write_rule csr_decide_rule matches rule_matches
    match_any matches_resource entry_matches cut cut_matches match_one verb_gate_decision has_key
    mode_resource_decision ro_no_secret_allow namespace_decision is_listed
get_pod_allowed = refl

real_main-secrets_example : get_pod.resource ≢ "secrets"
real_main-secrets_example =
    real_main-secrets (environment 200) args empty_disk served get_pod environment-IsUsable started
      refl refl get_pod_allowed
