-- ===== src/Failover/History/Log.antt =====
-- The table `operations` of src/cybercore/failover_sim.py is a view of its event log.
use mathlib.Core.Path.{subst₂}
use cyber_core.Base.{
  sym, ℕ, ◌+◌, String, ◌≡◌, refl, ◌∙◌, ap, Option, none, some, List, [], ◌∷◌, ◌++◌, lookup, insert,
  lookup-insert, ◌==◌, string_eq, if◌then◌else◌, arith,
}
use cyber_core.Base.Int.{ℤ}
use cyber_core.Base.Exec.{◌>>=◌}
use cyber_core.Failover.Types.{Event, OpState, Row, Request}
use cyber_core.Failover.Journal
use cyber_core.Failover.Journal.{Journal, Change}
use cyber_core.Failover.Journal.Rows.{begin-cases}
use cyber_core.Failover.Simulator.{Simulator, on_journal, on_provider}
use cyber_core.Failover.Simulator.Frame.{Preserves-transition_journal}
use cyber_core.Failover.History.{Call, play}
use cyber_core.Failover.History.Invariants.{play-rule}

-- The state that the last event of an operation records.
unfoldable pub last_state : String → List Event → Option OpState
last_state id [] = none
last_state id (e ∷ events) = elim (last_state id events) [
  | some state ↦ some state
  | none ↦ if e.operation_id == id then some e.state else none
]

last_state-append :
    (id : String) (e : Event) (events : List Event)
    → last_state id (events ++ e ∷ [])
      ≡ (if e.operation_id == id then some e.state else last_state id events)
unfolding last_state
last_state-append id e [] = refl
last_state-append id e (x ∷ events) = ground (arith, last_state-append id e events)

abbrev row_state : Option Row → Option OpState
row_state none = none
row_state (some row) = some row.state

-- The sequence numbers of the events are the consecutive numbers after `n`, up to `last`.
abbrev IsNumbered : ℕ → List Event → ℕ → Type 0
IsNumbered n [] last = last ≡ n
IsNumbered n (e ∷ events) last = (e.seq ≡ n + 1) × IsNumbered (n + 1) events last

IsNumbered-append :
    (n : ℕ) (e : Event) (events : List Event) (last : ℕ)
    → IsNumbered n events last
    → e.seq ≡ last + 1
    → IsNumbered n (events ++ e ∷ []) (last + 1)
IsNumbered-append n e [] last h p = (omega arith, omega arith)
IsNumbered-append n e (x ∷ events) last h p = (h.0, IsNumbered-append (n + 1) e events last h.1 p)

-- Each operation's row has the state of its last event, an operation with no event has no row, and
-- the events are numbered from 1 with no gap.
pub record IsLogged (j : Journal) : Type 0 where
  pub state_of : (id : String) → row_state (lookup id j.operations) ≡ last_state id j.events
  pub numbered : IsNumbered 0 j.events j.last_seq

-- One row written together with an event of its state.
write-IsLogged :
    (id : String) (e : Event) (row : Row) (j : Journal)
    → IsLogged j
    → e.operation_id ≡ id
    → e.state ≡ row.state
    → e.seq ≡ j.last_seq + 1
    → IsLogged (record j {
      operations = insert id row j.operations;
      events = j.events ++ e ∷ [];
      last_seq = j.last_seq + 1;
    })
write-IsLogged id e row j h same_id same_state same_seq = record {
  state_of = λ k.
      ground
        (arith, lookup-insert id k row j.operations, last_state-append k e j.events, h.state_of k);
  numbered = IsNumbered-append 0 e j.events j.last_seq h.numbered same_seq;
}

begin-IsLogged :
    (req : Request) (generation : ℕ) (now : ℤ) (j : Journal)
    → IsLogged j
    → IsLogged (Journal.begin req generation now j).1
begin-IsLogged req generation now j h =
    begin-cases IsLogged req generation now j h (λ missing.
      unfold Journal.add_event in write-IsLogged req.operation_id _ _ j h refl refl refl)

-- Whatever is called in whatever order, with crashes, retries and injected faults: the table of
-- operations stays the view of the event log, and the log has no gap.
pub play-IsLogged :
    (calls : List Call) (s : Simulator) → IsLogged s.journal → IsLogged (play calls s).journal
play-IsLogged =
    play-rule (λ s. IsLogged s.journal)
      (λ s t same h. record {
        state_of = λ id.
            ap (λ d. row_state (lookup id d)) same.operations
            ∙ h.state_of id
            ∙ sym (ap (last_state id) same.events);
        numbered = subst₂ (IsNumbered 0) (sym same.events) (sym same.last_seq) h.numbered;
      })
      (λ req generation now. record {
        after = λ s h. unfold on_journal ◌>>=◌ in begin-IsLogged req generation now s.journal h;
      })
      (λ req state note.
        Preserves-transition_journal IsLogged req state note (λ j now c row h found.
          unfold Journal.add_event in write-IsLogged req.operation_id _ _ j h refl refl refl))
      (λ target action epoch key. record { after = λ s h. unfold on_provider ◌>>=◌ in h })
