-- ===== src/Lib.antt =====
-- kubegate stands between clients in a guest and the API server of one Kubernetes cluster. It
-- authenticates a client by a token, decides each request by a policy (a capability mode, a
-- namespace allowlist, an optional policy file), forwards what is allowed with the host's own
-- credentials, and in the strict mode ro-nosecret filters discovery documents and redacts
-- responses. This library models that chain, from the request to the bytes that go back, and the program
-- around it, from the command line over the listener to the exit status.
--
-- The parts, and the files that model them:
--   * internal/policy (Policy): types.go is Policy/Types, rule.go Policy/Rule, modes.go
--     Policy/Modes, scope.go Policy/Scope, nonresource.go Policy/NonResource, extension.go
--     Policy/Extension, engine.go Policy/Engine. `authorize` is Engine.Authorize,
--     `authorize_resource_kind` AuthorizesResourceKind, `validate_extension` ValidateExtension; the other
--     functions keep their names in snake case.
--   * internal/redact (Redact): redact.go is Redact, with `redact_object` for Object and
--     `redact_body` for Body; stream.go is Redact/Stream, with `stream`, `read_frame` and
--     `write_frame`.
--   * internal/discovery (Discovery): filter.go is split over Documents (what the filters share),
--     Flat (APIResourceList and APIGroupList), Aggregated (APIGroupDiscoveryList) and Filter
--     (FilterBody); scoper.go is Scoper.
--   * internal/authn (Authn): New, Authenticate and Scrub, over the header of Header.
--   * internal/server and internal/reqinfo (Server): status.go and reqinfo.go are Server/Http;
--     server.go is Server/Negotiate (isUpgrade, isJSON, isWatch, negotiateJSON), Server/Handler
--     (`authorize_request` is handler.authorize, with one function for each of its later stages)
--     and Server/Response (`modify_response` is handler.modifyResponse, `proxy_error`
--     writeProxyError);
--     token.go is Server/TokenFile (`load_or_create_token` is LoadOrCreateToken), over a disk of files
--     with modes;
--     tls.go is Server/Certificate (`load_or_create_cert` is LoadOrCreateCert, `generate_self_signed`
--     generateSelfSigned), over the same disk, which is Server/Disk;
--     kubeconfig.go is Server/Kubeconfig (`banner` is Banner);
--     Server/Serve joins these: `serve` is handler.authorize with all that httputil.ReverseProxy makes of
--     its verdict, down to the writes that http.ResponseWriter takes from statusRecorder, and `logged` is the
--     audit entry of ServeHTTP. Server/Watch is the goroutine of modifyResponse that redacts a watch into a
--     pipe, and the reverse proxy that copies from it, as a step relation.
--   * internal/audit (Audit): `line_of` is the line that Log makes of an entry; Audit/Writers has the
--     goroutines that log at the same time, as a step relation on the mutex, the encoder's error, the log and
--     the position of each goroutine.
--   * internal/upstream (Upstream): `new_upstream` is New, `probe` is Probe. The fetcher of scoper.go,
--     Discovery/Fetch, uses the same route.
--   * cmd/kubegate (Command): `flags_of` and `config_of` are parseFlags, `validate` is
--     config.validate, and `engine_config` what run gives to NewEngine. Command/Start
--     has `run`, one function for each of its steps, from the route to the listener, and `real_main`,
--     which is realMain of main.go; `new_handler` and `wired` are what NewHandler makes of the
--     collaborators and of the route, and `shown` is the banner. Command/Start/Exit has the end of `run`
--     and main.
-- The handler calls the authenticator, the parser and the engine; the response pipeline calls the
-- discovery filter and redaction; the discovery filter probes the engine; the start makes the route,
-- the scope map, the engine, the certificate and the token in this order, and hands them to the handler.
--
-- Conventions. A Go string is the native String; all separators are ASCII, so that cutting by
-- characters and by bytes agree. Messages of decisions, errors and replies are constructors with
-- the arguments of their format; the wording is not modelled. A Go map is an association list
-- whose first entry of a key counts. A value that the source changes in place is returned. Decoded
-- JSON is the type Json; encoding/json is a pair of partial functions, the record Codec, of which
-- nothing is assumed. Parameters too are apiserver's RequestInfoFactory, client-go and the transport that
-- it makes, which may answer a request with anything or not at all, the operating system's calls, which
-- may fail, the making of certificates and random tokens, and the clock.
--
-- Bounds and fuel. Frames of a watch and request bodies are limited to 8 MiB, as in the source;
-- the limit on buffered response bodies is an argument. The loop that copies a watch runs on fuel,
-- one more than the number of chunks that the reader still has to give: each round but the last
-- takes at least one of them.
--
-- Not modelled: the decoding of a policy file as YAML, the cryptography of a certificate, how package
-- flag reads arguments, the wording of messages and their rendering as JSON, request bodies but for
-- their declared length, response headers other than the content type and length, timing (constant-time
-- comparison, timeouts, flushing), and concurrency but for the audit log and for the two sides of a
-- watch: otherwise each request has its own state.
pub mod Prelude
pub mod Text
pub mod Policy
pub mod Json
pub mod Redact
pub mod Discovery
pub mod Header
pub mod Authn
pub mod Audit
pub mod Server
pub mod Upstream
pub mod Command
