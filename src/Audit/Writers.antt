-- ===== src/Audit/Writers.antt =====
-- internal/audit/audit.go, `Log` as goroutines run it at the same time: each makes its line, takes the
-- mutex, writes the line, and releases the mutex. The writer may take a line in several pieces, and may
-- fail at any time, with a part of the line taken; the encoder then writes nothing any more. `Log` ignores
-- its errors.
pub mod Invariant
pub mod Lines
pub mod Progress
use kubegate.Prelude.{ℕ, Bool, true, false, ◌≡◌, ◌≢◌, String, Option, none, some, List, [], ◌++◌}
use native.Mathlib.Decide.{ℕ_discrete}
use mathlib.Core.Logic.{ite}
use kubegate.Json.{Bytes}
use kubegate.Audit.{Entry, Logger, Line, line_of}

-- Where a goroutine stands: before its line is made, waiting for the mutex, holding it, writing with what
-- is written and what is not, and returned, with what it has written.
pub data Pc : Type 0 where
  entered : Pc
  waiting : Bytes → Pc
  holding : Bytes → Pc
  writing : Bytes → Bytes → Pc
  returned : Bytes → Pc

-- The mutex with its holder, whether the encoder has met an error of the writer, what the writer has
-- taken, and the goroutines.
pub record System : Type 0 where
  pub mutex : Option ℕ
  pub failed : Bool
  pub out : Bytes
  pub pc : ℕ → Pc

abbrev pub update : (ℕ → Pc) → ℕ → Pc → ℕ → Pc
update pc i p j = ite (ℕ_discrete i j) p (pc j)

abbrev pub start : System
start = record { mutex = none; failed = false; out = []; pc = λ i. entered }

-- One goroutine makes a step. `encode` is the encoder's rendering of a line, its newline included;
-- goroutine `i` logs the entry `entries i`.
pub data Step (encode : Line → Bytes) (l : Logger) (entries : ℕ → Entry) (s t : System)
    : Type 0 where
  prepare :
      (i : ℕ) (ts : String)
      → s.pc i ≡ entered
      → t ≡ record s { pc = update s.pc i (waiting (encode (line_of l ts (entries i)))) }
      → Step encode l entries s t
  lock :
      (i : ℕ) (line : Bytes)
      → s.pc i ≡ waiting line
      → s.mutex ≡ none
      → t ≡ record s { mutex = some i; pc = update s.pc i (holding line) }
      → Step encode l entries s t
  begin :
      (i : ℕ) (line : Bytes)
      → s.pc i ≡ holding line
      → s.failed ≡ false
      → t ≡ record s { pc = update s.pc i (writing [] line) }
      → Step encode l entries s t
  skip :
      (i : ℕ) (line : Bytes)
      → s.pc i ≡ holding line
      → s.failed ≡ true
      → t ≡ record s { mutex = none; pc = update s.pc i (returned []) }
      → Step encode l entries s t
  fail :
      (i : ℕ) (written rest : Bytes)
      → s.pc i ≡ writing written rest
      → t ≡ record s { mutex = none; failed = true; pc = update s.pc i (returned written) }
      → Step encode l entries s t
  write :
      (i : ℕ) (written piece rest : Bytes)
      → s.pc i ≡ writing written (piece ++ rest)
      → piece ≢ []
      → t ≡ record s { out = s.out ++ piece; pc = update s.pc i (writing (written ++ piece) rest) }
      → Step encode l entries s t
  unlock :
      (i : ℕ) (written : Bytes)
      → s.pc i ≡ writing written []
      → t ≡ record s { mutex = none; pc = update s.pc i (returned written) }
      → Step encode l entries s t

pub data Reach (encode : Line → Bytes) (l : Logger) (entries : ℕ → Entry) : System → Type 0 where
  here : Reach encode l entries start
  next :
      {s t : System}
      → Reach encode l entries s
      → Step encode l entries s t
      → Reach encode l entries t
