-- ===== src/Discovery/Fetch/Answered.antt =====
-- What is behind a document that the fetcher gives.
use kubegate.Prelude.{
  ◌≡◌, ◌⊎◌, inl, inr, refl, take, String, true, false, Option, none, some, eqb, ltb, length,
  Bool-cases, eqb→eq,
}
use kubegate.Json.{Bytes}
use kubegate.Server.Response.{Response}
use kubegate.Upstream.{Upstream, Client, json_request}
use kubegate.Discovery.Fetch.{max_discovery_bytes, decode_answer, get_json}

-- The cluster answered GET of this path with 200, and with a body whose beginning, up to the limit, was
-- read and decodes to this document.
pub record IsAnswer {A : Type 0} (c : Client) (u : Upstream) (decode : Bytes → Option A)
    (path : String) (a : A) : Type 0 where
  pub response : Response
  pub answered : u.transport (json_request u.base path) ≡ some response
  pub ok : response.status ≡ 200
  pub read : (response.reads ≡ true) ⊎ (ltb (length response.body) max_discovery_bytes ≡ false)
  pub decoded : decode (take max_discovery_bytes response.body) ≡ some a

module _ {A : Type 0} (c : Client) (u : Upstream) (decode : Bytes → Option A) (path : String)
    (a : A) where
  decode_answer-IsAnswer :
      (r : Option Response)
      → u.transport (json_request u.base path) ≡ r
      → decode_answer decode r ≡ some a
      → IsAnswer c u decode path a
  decode_answer-IsAnswer none e h = cc h
  decode_answer-IsAnswer (some resp) e h = elim (Bool-cases (eqb resp.status 200)) [
    | inr n ↦ cc (rw n at h)
    | inl s ↦ elim (Bool-cases resp.reads) [
      | inl r ↦ record {
        response = resp;
        answered = e;
        ok = eqb→eq _ _ s;
        read = inl r;
        decoded = rw (s, r) at h;
      }
      | inr n ↦ elim (Bool-cases (ltb (length resp.body) max_discovery_bytes)) [
        | inl short ↦ cc (rw (s, n, short) at h)
        | inr long ↦ record {
          response = resp;
          answered = e;
          ok = eqb→eq _ _ s;
          read = inr long;
          decoded = rw (s, n, long) at h;
        }
      ]
    ]
  ]

  pub get_json-IsAnswer : get_json c u decode path ≡ some a → IsAnswer c u decode path a
  unfolding get_json
  get_json-IsAnswer h = elim (Bool-cases (c.is_requestable (record u.base { path = path }))) [
    | inl r ↦ decode_answer-IsAnswer _ refl (rw r at h)
    | inr n ↦ cc (rw n at h)
  ]
