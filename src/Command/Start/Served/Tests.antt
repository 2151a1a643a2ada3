-- ===== src/Command/Start/Served/Tests.antt =====
-- A request for pods to a strict listener.
use kubegate.Prelude.{◌≡◌, refl, true, none, some, [], ◌∷◌, arith}
use kubegate.Text.{cut}
use kubegate.Text.Lower.{lower, equal_lower, cut_prefix_lower, has_prefix_lower}
use kubegate.Header
use kubegate.Policy.Modes.{
  has_key, universal_deny_decision, universal_deny_rules, interactive_rule, token_request_rule,
  csr_write_rule, csr_decide_rule, verb_gate_decision, mode_resource_decision, ro_no_secret_allow,
}
use kubegate.Policy.Scope.{is_listed, namespace_decision}
use kubegate.Policy.Rule.{
  match_any, match_one, cut_matches, entry_matches, matches_resource, rule_matches, matches,
}
use kubegate.Policy.Engine.{authorize, authorize_resource_kind, redaction_enabled}
use kubegate.Authn.{authenticate, presented, scrub, is_exact, has_any_prefix, is_identity_header}
use kubegate.Discovery.Documents.{is_discovery_path}
use kubegate.Server.Http.{HttpRequest, parse}
use kubegate.Server.Negotiate.{any_upgrade, is_upgrade, is_pod_log, negotiate_json}
use kubegate.Server.Handler.{
  forward, check_length, negotiate, check_policy, check_path, authorize_request, rewrite,
}
use kubegate.Server.Response.{Response, expects_json}
use kubegate.Server.Serve
use kubegate.Server.Serve.{redaction_failure, answering, serve}
use kubegate.Server.Serve.Delivered.{IsDelivered}
use kubegate.Server.Tests.{asked, sent, pods_request, broken_codec}
use kubegate.Command.Start.{wired}
use kubegate.Command.Start.Tests.{
  environment, empty_disk, args, served, environment-IsUsable, started,
}
use kubegate.Command.Start.Served.{real_main-IsDelivered}

asked_passes :
    ((authorize_request served.options asked).action ≡ forward sent)
    × ((authorize_request served.options asked).request ≡ pods_request)
unfolding authorize_request is_upgrade any_upgrade Header.values Header.get Header.set authenticate
    presented lower equal_lower cut_prefix_lower has_prefix_lower scrub is_identity_header is_exact
    has_any_prefix check_path parse check_policy negotiate redaction_enabled negotiate_json
    check_length authorize authorize_resource_kind cut universal_deny_decision universal_deny_rules
    interactive_rule token_request_rule csr_write_rule csr_decide_rule matches rule_matches
    match_any matches_resource entry_matches cut_matches match_one verb_gate_decision has_key
    mode_resource_decision ro_no_secret_allow namespace_decision is_listed
asked_passes = (refl, refl)

-- A client that takes everything.
abbrev outside : Serve.Outside
outside = record {
  codec = broken_codec;
  render = λ st. some (123 ∷ 125 ∷ []);
  error_text = 101 ∷ [];
  base = record { scheme = ""; host = "" };
  round_trip = λ r. none;
  failure = λ r. redaction_failure;
  read_failure = λ r. redaction_failure;
  limit = 134217728;
  taken = λ bs. 1000;
}

abbrev sent_as : HttpRequest
sent_as = rewrite (wired served outside).base sent

abbrev answered : Response
answered = record {
  status = 200;
  content_type = "application/json";
  path = "/api/v1/namespaces/dev/pods";
  follow = "";
  body = 123 ∷ 125 ∷ [];
  reads = true;
  content_length = none;
  closes = true;
  chunks = [];
}

cluster_answers : served.upstream.transport sent_as ≡ some answered
unfolding rewrite
cluster_answers = refl

answer_expected :
    expects_json (authorize_request served.options asked).request (answering sent_as answered)
    ≡ true
unfolding expects_json is_discovery_path is_pod_log rewrite
answer_expected = rw asked_passes.1 (ground arith)

real_main-IsDelivered_example :
    IsDelivered
      (wired served outside)
      served.options.engine
      (answering sent_as answered)
      (serve (wired served outside) served.options asked).recorded.wire.body
real_main-IsDelivered_example =
    real_main-IsDelivered (environment 200) args empty_disk served outside asked sent answered
      environment-IsUsable started refl asked_passes.0 cluster_answers answer_expected
