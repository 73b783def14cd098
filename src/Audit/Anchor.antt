-- ===== src/Audit/Anchor.antt =====
-- src/cybercore/action_kernel_anchor_authority.py: which checkpoint may follow which.
use cyber_core.Base.{
  String, Bool, true, false, not, Option, none, some, ltb, nat_beq, ◌==◌, string_eq, if◌then◌else◌,
}
use cyber_core.Audit.Sink.{Database}
use cyber_core.Audit.Checkpoint.{AuditCheckpoint, verify_anchored_checkpoint}

pub record AnchorDecision : Type 0 where
  pub accepted : Bool
  pub reason : String

refuse : String → AnchorDecision
refuse reason = record { accepted = false; reason = reason }

accept : String → AnchorDecision
accept reason = record { accepted = true; reason = reason }

-- An authority that has accepted a checkpoint
check_advance : AuditCheckpoint → AuditCheckpoint → AnchorDecision
unfolding refuse accept
check_advance previous candidate =
    if not (previous.database_identity == candidate.database_identity)
    then refuse "DATABASE_IDENTITY_MISMATCH"
    else if ltb candidate.sequence previous.sequence
    then refuse "ANCHOR_ROLLBACK"
    else if nat_beq candidate.sequence previous.sequence
    then (if not (candidate.event_hash == previous.event_hash)
        then refuse "ANCHOR_EQUIVOCATION"
        else refuse "ALREADY_ANCHORED")
    else accept "ADVANCED_CANDIDATE"

unfoldable pub check_anchor_transition : Option AuditCheckpoint → AuditCheckpoint → AnchorDecision
unfolding refuse accept check_advance
check_anchor_transition none candidate =
    if nat_beq candidate.sequence 0
    then refuse "GENESIS_IS_NOT_EVIDENCE"
    else accept "INITIAL_CANDIDATE"
check_anchor_transition (some previous) candidate = check_advance previous candidate

unfoldable pub verify_and_propose_anchor :
    (String → String) → Database → AuditCheckpoint → Option AuditCheckpoint → AnchorDecision
unfolding check_anchor_transition refuse
verify_and_propose_anchor digest database candidate previous =
    let decision = check_anchor_transition previous candidate in
    if not decision.accepted
    then decision
    else if not (verify_anchored_checkpoint digest database candidate candidate.database_identity)
    then refuse "LOCAL_HISTORY_MISMATCH"
    else decision
