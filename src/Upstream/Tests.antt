-- ===== src/Upstream/Tests.antt =====
-- A cluster that no longer accepts the credentials.
use kubegate.Prelude.{ℕ, ◌≡◌, ◌↔◌, refl, true, none, some, [], ◌∷◌}
use kubegate.Server.Response.{Response}
use kubegate.Upstream.{
  Url, Upstream, Client, Transport, json_request, is_credentials_unavailable, probe,
}
use kubegate.Upstream.Probed.{IsReady, IsUnavailable, probe_iff}

abbrev answer : ℕ → Response
answer code = record {
  status = code;
  content_type = "application/json";
  path = "/version";
  follow = "";
  body = 123 ∷ 125 ∷ [];
  reads = true;
  content_length = none;
  closes = true;
  chunks = [];
}

abbrev cluster : Url
cluster = record { scheme = "https"; host = "10.0.0.1:6443"; path = "" }

abbrev answering : ℕ → Transport
answering code r = some (answer code)

abbrev client : Client
client = record {
  raw_contexts = λ p. some ("prod" ∷ []);
  client_config =
      λ p name. some (record { host = "https://10.0.0.1:6443"; transport = some (answering 401) });
  parse_url = λ s. some cluster;
  is_requestable = λ u. true;
}

abbrev expired : Upstream
expired = record { context_name = "prod"; base = cluster; transport = answering 401 }

probe_iff_example :
    ((probe client expired ≡ none)
      ↔ IsReady (expired.transport (json_request expired.base "/version")))
    × ((is_credentials_unavailable (probe client expired) ≡ true)
        ↔ IsUnavailable (expired.transport (json_request expired.base "/version")))
probe_iff_example = probe_iff client expired refl
