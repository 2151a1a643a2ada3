-- ===== src/Audit/Tests.antt =====
-- Two requests that are logged at the same time.
use kubegate.Prelude.{ℕ, refl, false, none, some, [], ◌∷◌}
use native.Mathlib.Decide.{ℕ_discrete}
use kubegate.Json.{Bytes}
use kubegate.Policy.Types.{Request, allowed}
use kubegate.Audit.{Entry, Logger, Line, new_logger, line_of}
use kubegate.Audit.Writers.{
  entered, waiting, holding, writing, returned, System, update, prepare, lock, begin, write, unlock,
  Reach, here, next,
}

-- The status and a newline stand for a line.
abbrev encode : Line → Bytes
encode line = line.status ∷ 10 ∷ []

abbrev logger : Logger
logger = new_logger "ro-nosecret" "prod"

abbrev request : Request
request = record {
  is_resource_request = false;
  path = "/version";
  verb = "get";
  api_group = "";
  api_version = "";
  resource = "";
  subresource = "";
  namespace = "";
  name = "";
}

abbrev entries : ℕ → Entry
entries i = record {
  remote = "192.168.5.15:51234";
  method = "GET";
  request = request;
  decision = allowed;
  status = i;
  bytes = 0;
  duration = 0;
  redacted = false;
}

-- Goroutine 1 has made its line, and goroutine 0 has logged, its line cut in two.
abbrev both_ready : System
both_ready = record {
  mutex = none;
  failed = false;
  out = [];
  pc = update (update (λ i. entered) 0 (waiting (0 ∷ 10 ∷ []))) 1 (waiting (1 ∷ 10 ∷ []));
}

abbrev first_locked : System
first_locked = record both_ready {
  mutex = some 0;
  pc = update both_ready.pc 0 (holding (0 ∷ 10 ∷ []));
}

abbrev first_begun : System
first_begun = record first_locked { pc = update first_locked.pc 0 (writing [] (0 ∷ 10 ∷ [])) }

abbrev half_written : System
half_written = record first_begun {
  out = 0 ∷ [];
  pc = update first_begun.pc 0 (writing (0 ∷ []) (10 ∷ []));
}

abbrev all_written : System
all_written = record half_written {
  out = 0 ∷ 10 ∷ [];
  pc = update half_written.pc 0 (writing (0 ∷ 10 ∷ []) []);
}

abbrev first_returned : System
first_returned = record all_written {
  mutex = none;
  pc = update all_written.pc 0 (returned (0 ∷ 10 ∷ []));
}

ready : Reach encode logger entries both_ready
unfolding line_of ℕ_discrete
ready = next (next here (prepare 0 "now" refl refl)) (prepare 1 "now" refl refl)

locked : Reach encode logger entries first_locked
unfolding ℕ_discrete
locked = next ready (lock 0 (0 ∷ 10 ∷ []) refl refl refl)

half : Reach encode logger entries half_written
unfolding ℕ_discrete
half =
    next (next locked (begin 0 (0 ∷ 10 ∷ []) refl refl refl))
      (write 0 [] (0 ∷ []) (10 ∷ []) refl (λ h. cc h) refl)

logged : Reach encode logger entries first_returned
unfolding ℕ_discrete
logged =
    next (next half (write 0 (0 ∷ []) (10 ∷ []) [] refl (λ h. cc h) refl))
      (unlock 0 (0 ∷ 10 ∷ []) refl refl)
