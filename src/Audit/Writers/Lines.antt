-- ===== src/Audit/Writers/Lines.antt =====
-- The log is made of whole lines, as long as the writer does not fail.
use kubegate.Prelude.{ℕ, ◌≡◌, ◌↔◌}
use kubegate.Json.{Bytes}
use kubegate.Audit.{Entry, Logger, Line}
use kubegate.Audit.Writers.{returned, System}
use kubegate.Audit.Writers.Invariant.{Turns, lines, Listed, IsOnce, Shape}

module _ (encode : Line → Bytes) (l : Logger) (entries : ℕ → Entry) where
  -- The log is what its turns wrote, one after the other, and what they wrote is of this shape.
  pub record IsWhole (s : System) : Type 0 where
    pub turns : Turns
    pub log : s.out ≡ lines turns
    pub once : IsOnce turns
    pub who : (i : ℕ) (b : Bytes) → Listed i b turns ↔ (s.pc i ≡ returned b)
    pub shape : Shape encode l entries s.failed turns
