-- ===== src/Execution/Process.antt =====
-- What a program that is run answers, for both sides of src/cybercore/execution/. Bytes are texts; a stream that is
-- absent is empty.
use cyber_core.Base.{String, Bool, false, not, ltb}
use cyber_core.Base.Int.{ℤ, pos}

pub data Outcome : Type 0 where
  completed : (returncode : ℤ) → (stdout stderr : String) → Outcome
  timed_out : (stdout stderr : String) → Outcome
  -- the program cannot be started: OSError
  missing : Outcome

abbrev pub is_zero : ℤ → Bool
is_zero (pos n) = not (ltb 0 n)
is_zero _ = false
