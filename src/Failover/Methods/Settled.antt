-- ===== src/Failover/Methods/Settled.antt =====
-- What the methods of src/cybercore/failover_sim.py do with an operation that has a row: `run` refuses
-- the identifier, and a terminal state ends `reconcile` and `compensate` at once.
use cyber_core.Base.{String, Bool, true, ◌≡◌, Option, some, arith}
use cyber_core.Base.Exec.{◌>>=◌}
use cyber_core.Failover.Types.{Row, Request, is_terminal}
use cyber_core.Failover.Journal
use cyber_core.Failover.Simulator.{Simulator}
use cyber_core.Failover.Methods.{run, reconcile, reconcile_row, compensate, compensate_row}

module _ (req : Request) (s : Simulator) (row : Row) where
  pub run-settled :
      (crash : Option String)
      → Journal.get req.operation_id s.journal ≡ some row
      → (run req crash s).1 ≡ s
  unfolding run ◌>>=◌
  run-settled crash found = rw found

  pub reconcile-settled :
      (retry : Bool)
      → Journal.get req.operation_id s.journal ≡ some row
      → is_terminal row.state ≡ true
      → (reconcile req retry s).1 ≡ s
  unfolding reconcile reconcile_row ◌>>=◌
  reconcile-settled retry found settled = rw (found, reconcile_row) (rw settled)

  pub compensate-settled :
      Journal.get req.operation_id s.journal ≡ some row
      → is_terminal row.state ≡ true
      → (compensate req s).1 ≡ s
  unfolding compensate compensate_row is_terminal ◌>>=◌
  compensate-settled found settled = rw (found, compensate_row) (ground arith)
