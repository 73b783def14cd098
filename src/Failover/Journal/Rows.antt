-- ===== src/Failover/Journal/Rows.antt =====
-- What `begin` and `transition` of src/cybercore/failover_sim.py do to the rows of the operations, to
-- the leases, and to the view that `in_flight` has of the other operations.
use cyber_core.Base.{
  is_some, ◌||◌, ℕ, String, true, false, ◌≡◌, refl, Option, none, some, [], ◌∷◌, ◌&&◌, not, Dict,
  lookup, insert, any, arith, ◌==◌, string_eq, eq_iff, if◌then◌else◌,
}
use cyber_core.Base.Int.{ℤ}
use cyber_core.Base.Exec.{◌>>=◌}
use cyber_core.Failover.Types.{Request, Row, prepared, is_in_flight}
use cyber_core.Failover.Journal.{Journal, Change, begin, transition, update_row, new_row, add_event}

-- The rows of other operations do not change when the row of `id` does.
pub any_others-insert :
    (target id : String) (row : Row) (d : Dict String Row)
    → any (λ e. e.1.target == target && not (e.0 == id) && is_in_flight e.1.state) (insert id row d)
      ≡ any (λ e. e.1.target == target && not (e.0 == id) && is_in_flight e.1.state) d
unfolding any insert
any_others-insert target id row [] = ground (arith, eq_iff id id)
any_others-insert target id row ((k, old) ∷ d) =
    ground (arith, any_others-insert target id row d, eq_iff k id)

-- The journal after a successful `begin`, and after a successful `transition` of `row`.
abbrev pub begun : Request → ℕ → ℤ → Journal → Journal
begun req generation now j =
    let row = new_row req generation in
    add_event req.operation_id now prepared row none
      (record j { operations = insert req.operation_id row j.operations })

abbrev pub moved : String → ℤ → Change → Row → Journal → Journal
moved id now c row j =
    add_event id now c.state row (some c.detail)
      (record j { operations = insert id (update_row c row) j.operations })

abbrev moved_or_not : String → ℤ → Change → Journal → Option Row → Journal
moved_or_not id now c j none = j
moved_or_not id now c j (some row) = moved id now c row j

begin-eq :
    (req : Request) (generation : ℕ) (now : ℤ) (j : Journal)
    → (begin req generation now j).1 ≡ (
        if j.fail_writes || is_some (lookup req.operation_id j.operations)
        then j
        else begun req generation now j)
unfolding begin ◌>>=◌
begin-eq req generation now j = ground arith

transition-eq :
    (id : String) (now : ℤ) (c : Change) (j : Journal)
    → (transition id now c j).1
      ≡ (if j.fail_writes then j else moved_or_not id now c j (lookup id j.operations))
unfolding transition ◌>>=◌
transition-eq id now c j = ground arith

-- To prove something of the journal after a write, prove it of the journal before and of the row
-- and the event written together: no other journal comes out.
module _ (P : Journal → Type 0) where
  pub begin-cases :
      (req : Request) (generation : ℕ) (now : ℤ) (j : Journal)
      → P j
      → (lookup req.operation_id j.operations ≡ none → P (begun req generation now j))
      → P (begin req generation now j).1
  begin-cases req generation now j same new =
      rw begin-eq
        (elim j.fail_writes
          as (λ b. P (
            if b || is_some (lookup req.operation_id j.operations)
            then j
            else begun req generation now j)) [
              | true ↦ same
              | false ↦ unless (lookup req.operation_id j.operations) refl
            ])
    where
      unless :
          (found : Option Row)
          → lookup req.operation_id j.operations ≡ found
          → P (if is_some found then j else begun req generation now j)
      unless none e = new e
      unless (some row) e = same

  pub transition-cases :
      (id : String) (now : ℤ) (c : Change) (j : Journal)
      → P j
      → ((row : Row) → lookup id j.operations ≡ some row → P (moved id now c row j))
      → P (transition id now c j).1
  transition-cases id now c j same new =
      rw transition-eq
        (elim j.fail_writes
          as (λ b. P (if b then j else moved_or_not id now c j (lookup id j.operations))) [
            | true ↦ same
            | false ↦ when (lookup id j.operations) refl
          ])
    where
      when :
          (found : Option Row) → lookup id j.operations ≡ found → P (moved_or_not id now c j found)
      when none e = same
      when (some row) e = new row e
