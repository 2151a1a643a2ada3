-- ===== src/Audit/Writers/Progress.antt =====
-- Logging does not get stuck.
use kubegate.Prelude.{ℕ}
use kubegate.Json.{Bytes}
use kubegate.Audit.{Entry, Logger, Line}
use kubegate.Audit.Writers.{System, Step}

module _ (encode : Line → Bytes) (l : Logger) (entries : ℕ → Entry) where
  abbrev CanStep : System → Type 0
  CanStep s = (t : System) × Step encode l entries s t
