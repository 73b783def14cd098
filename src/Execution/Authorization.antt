-- ===== src/Execution/Authorization.antt =====
-- src/cybercore/execution/authorization.py, and what both sides make of it: an operation that mutates needs a
-- verifier's consent.
use cyber_core.Base.{String, Bool, false, Option, none, some}

pub record ExecutionAuthorizationCheck : Type 0 where
  pub authorized : Bool
  pub reason : String

-- What a verifier is asked
pub record Grant : Type 0 where
  pub operation_id : String
  pub operation : String
  pub target_id : String
  pub plan_id : String
  pub plan_revision : String
  pub authorization_reference : String

abbrev pub Verifier : Type 0
Verifier = Grant → ExecutionAuthorizationCheck

-- `DenyAllExecutionAuthorizationVerifier`
abbrev pub deny_all : Verifier
deny_all grant = record {
  authorized = false;
  reason = "no execution authorization verifier was configured";
}

-- `authorization_verifier or DenyAllExecutionAuthorizationVerifier()`
abbrev pub or_deny_all : Option Verifier → Verifier
or_deny_all none = deny_all
or_deny_all (some verifier) = verifier
