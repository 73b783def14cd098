-- ===== src/Audit/Recorded.antt =====
-- The kernel of src/cybercore/action_kernel.py with the sink of
-- src/cybercore/action_kernel_sqlite_audit.py: what the file has of what the kernel did.
use mathlib.Core.List.{append_assoc, map-append}
use cyber_core.Base.{
  String, Bool, true, false, ◌≡◌, refl, sym, ap, subst, ◌∙◌, none, some, List, [], ◌∷◌, ◌++◌, map,
  keep, arith,
}
use cyber_core.Base.Exec.{Result, ok, err}
use cyber_core.Base.Time.{DateTime}
use cyber_core.Kernel.{Kernel}
use cyber_core.Kernel.Types.{TaskRequest, AuditEvent, AuditStage, Error, Status}
use cyber_core.Kernel.Execute.{execute}
use cyber_core.Kernel.Execute.Reached.{IsAccepted, silent, heard, entry, about}
use cyber_core.Kernel.Execute.Outcomes.{Outcome, status_of, Ends}
use cyber_core.Kernel.Execute.Outcomes.Authority.{execute-Ends}
use cyber_core.Audit.Document.{document}
use cyber_core.Audit.Sink.{SinkError, Database, call, verify_chain}
use cyber_core.Audit.Log.{rows_of, log_events, payloads, accepted, is_short}
use cyber_core.Audit.History.{verdict, log_events-verifies}

is_written : Result SinkError Unit → Bool
is_written (ok done) = true
is_written (err e) = false

-- The kernel after the calls, one after the other
unfoldable pub executes : List (TaskRequest × String) → Kernel → Kernel
executes [] k = k
executes ((req, actor) ∷ calls) k = executes calls (execute req actor k).1

-- What the file shows of an `execute`: what was appended to it are the documents of one event for each
-- stage, in order, each with its task and its actor; and its chain verifies, or it has no row and no
-- table, where the check raises.
pub record IsShown (isoformat : DateTime → String) (digest : String → String) (k : Kernel)
    (req : TaskRequest) (actor : String) (before after : Database) (ending : Result Error Status)
    : Type 0 where
  pub reserved : Bool
  pub stages : List AuditStage
  pub outcome : Outcome k req ending reserved stages
  pub events : List AuditEvent
  pub logged : map entry events ≡ map (about req actor) stages
  pub appended :
      payloads (rows_of after) ≡ payloads (rows_of before) ++ map (document isoformat) events
  pub verified : verify_chain digest after ≡ verdict (payloads (rows_of after))

module _ (isoformat : DateTime → String) (digest : String → String) where
  -- The sink on a fresh file, as the kernel sees it: whether the call on an event raises, after the
  -- events before it.
  unfoldable pub recorder : List AuditEvent → AuditEvent → Bool
  unfolding is_written
  recorder past event =
      is_written (call isoformat digest event (log_events isoformat digest past none)).0

  -- The file once the trail has been sent to it
  abbrev pub file : Kernel → Database
  file k = log_events isoformat digest k.trail none

  accepted-append :
      (past others : List AuditEvent)
      → accepted isoformat (past ++ others) ≡ accepted isoformat past ++ accepted isoformat others
  unfolding accepted
  accepted-append [] others = refl
  accepted-append (e ∷ past) others =
      ap (λ r. keep is_short (document isoformat e ∷ []) ++ r) (accepted-append past others)
      ∙ sym (
          append_assoc (keep is_short (document isoformat e ∷ [])) (accepted isoformat past)
            (accepted isoformat others))

  recorder-short :
      (past : List AuditEvent) (e : AuditEvent)
      → recorder past e ≡ true
      → accepted isoformat (e ∷ []) ≡ document isoformat e ∷ []
  unfolding recorder call is_written accepted keep
  recorder-short past e h = ground (arith, h)

  IsAccepted-documents :
      {trail : List AuditEvent}
      → IsAccepted recorder trail
      → accepted isoformat trail ≡ map (document isoformat) trail
  unfolding accepted
  IsAccepted-documents silent = refl
  IsAccepted-documents (heard {trail} e before taken) =
      accepted-append trail (e ∷ [])
      ∙ ap (λ r. accepted isoformat trail ++ r) (recorder-short trail e taken)
      ∙ ap (λ r. r ++ (document isoformat e ∷ [])) (IsAccepted-documents before)
      ∙ sym (map-append (document isoformat) trail (e ∷ []))

  file-payloads :
      (k : Kernel)
      → IsAccepted recorder k.trail
      → payloads (rows_of (file k)) ≡ map (document isoformat) k.trail
  file-payloads k h = (log_events-verifies isoformat digest k.trail).1 ∙ IsAccepted-documents h

  -- A kernel that writes to the file, and has only events on its trail that are in it
  pub record IsRecording (k : Kernel) : Type 0 where
    pub sink : k.sink ≡ some recorder
    pub taken : IsAccepted recorder k.trail

  module _ (req : TaskRequest) (actor : String) (k : Kernel) (h : IsRecording k) where
    ends : Ends k req actor (execute req actor k)
    ends = execute-Ends k req actor

    execute-IsRecording : IsRecording (execute req actor k).1
    execute-IsRecording = record {
      sink = sym (ap (λ x. x.sink) ends.reached.frame) ∙ h.sink;
      taken = ends.reached.sunk recorder h.sink h.taken;
    }

    recording-IsShown :
        IsShown isoformat digest k req actor
          (file k)
          (file (execute req actor k).1)
          (status_of (execute req actor k).0)
    recording-IsShown = record {
      reserved = ends.reserved;
      stages = ends.stages;
      outcome = ends.outcome;
      events = ends.reached.events;
      logged = ends.reached.logged;
      appended =
          file-payloads (execute req actor k).1 execute-IsRecording.taken
          ∙ ap (map (document isoformat)) ends.reached.trail
          ∙ map-append (document isoformat) k.trail ends.reached.events
          ∙ ap (λ r. r ++ map (document isoformat) ends.reached.events)
              (sym (file-payloads k h.taken));
      verified =
          let (verified, listed) =
            log_events-verifies isoformat digest (execute req actor k).1.trail in
          verified ∙ ap verdict (sym listed);
    }

  executes-IsRecording :
      (calls : List (TaskRequest × String)) (k : Kernel)
      → IsRecording k
      → IsRecording (executes calls k)
  unfolding executes
  executes-IsRecording [] k h = h
  executes-IsRecording ((req, actor) ∷ calls) k h =
      executes-IsRecording calls (execute req actor k).1 (execute-IsRecording req actor k h)

  -- After any calls of a kernel that is new and has the sink on a fresh file, the file shows an
  -- `execute`, however it ends: what was appended are the documents of the events of that ending, one for
  -- each of its stages, in order, with the task and the actor; and the chain verifies if the file has a row,
  -- while without one the file has no table, and the check raises an OperationalError.
  pub execute-IsShown :
      (k : Kernel) (calls : List (TaskRequest × String)) (req : TaskRequest) (actor : String)
      → k.sink ≡ some recorder
      → k.trail ≡ []
      → let j = executes calls k in
        IsShown isoformat digest j req actor
          (file j)
          (file (execute req actor j).1)
          (status_of (execute req actor j).0)
  execute-IsShown k calls req actor sink new = recording-IsShown req actor (executes calls k) (
      executes-IsRecording calls k
        (record { sink = sink; taken = subst (IsAccepted recorder) (sym new) silent }))
