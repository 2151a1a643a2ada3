-- ===== src/Server/Serve/Tests.antt =====
-- A list of pods that a strict proxy asks for, with an answer that it does not pass on.
use kubegate.Prelude.{◌≡◌, true, false, some, [], ◌∷◌}
use kubegate.Server.Handler.{authorize_request, rewrite}
use kubegate.Server.Response.{ProxyFailure, Response, expects_json}
use kubegate.Server.Serve.{Outside, answering}
use kubegate.Server.Tests.{
  strict, asked, sent, broken_codec, protobuf, pods_expected, asked-request,
}

abbrev unreachable : ProxyFailure
unreachable = record {
  is_redaction = false;
  is_credentials_unavailable = true;
  is_net_timeout = false;
  is_handler_timeout = false;
}

abbrev pub outside : Outside
outside = record {
  codec = broken_codec;
  render = λ st. some (123 ∷ 125 ∷ []);
  error_text = 101 ∷ [];
  base = record { scheme = "https"; host = "10.0.0.1:6443" };
  round_trip = λ r. some protobuf;
  failure = λ r. unreachable;
  read_failure = λ r. unreachable;
  limit = 134217728;
  taken = λ bs. 1;
}

abbrev answered : Response
answered = answering (rewrite outside.base sent) protobuf

answered_expected : expects_json (authorize_request strict asked).request answered ≡ true
unfolding rewrite
answered_expected = rw asked-request pods_expected
