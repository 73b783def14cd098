-- ===== src/Rooms/Registry.antt =====
-- src/cybercore/communication/contracts.py and src/cybercore/communication/agent_registry.py: the events of a
-- room, and the agents that answer in it.
pub mod Selection
use Prim.Native.Nat.{Ordering}
use Prim.Native.String.{compare}
use cyber_core.Base.{
  ℕ, String, Bool, true, false, Option, none, some, List, [], ◌∷◌, Dict, lookup, insert, ◌==◌,
  string_eq, if◌then◌else◌, is_some, keep,
}
use cyber_core.Base.Int.{ℤ, leb_ℤ}
use cyber_core.Base.Text.{is_blank}
use cyber_core.Base.Exec.{Result, ok, err}
use cyber_core.Execution.Json.{Json}

pub record TrustedActor : Type 0 where
  pub actor_id : String
  pub actor_type : String
  pub display_name : String
  pub room_ids : List String
  pub session_ids : List String

pub record RoomEventDraft : Type 0 where
  pub event_id : String
  pub room_id : String
  pub session_id : String
  pub actor_id : String
  pub actor_type : String
  pub target : String
  pub event_type : String
  pub payload : Dict String Json
  pub correlation_id : Option String
  pub causation_id : Option String
  pub metadata : Dict String Json
  pub timestamp : String

pub record RoomEvent : Type 0 where
  pub event_id : String
  pub timestamp : String
  pub sequence : ℤ
  pub room_id : String
  pub session_id : String
  pub actor_id : String
  pub actor_type : String
  pub target : String
  pub event_type : String
  pub payload : Dict String Json
  pub correlation_id : Option String
  pub causation_id : Option String
  pub metadata : Dict String Json
  pub previous_hash : Option String
  pub event_hash : String

pub record AgentReply : Type 0 where
  pub text : String
  pub metadata : Dict String Json

-- `handler` is `handler.respond`, on the number of answers that were asked of agents before: it replies,
-- has no reply, or raises an exception of a type of that name.
pub record AgentDescriptor : Type 0 where
  pub actor_id : String
  pub display_name : String
  pub handler : ℕ → RoomEvent → Result String (Option AgentReply)
  pub online : Bool
  pub priority : ℤ
  pub voice_identity : Option String

abbrev pub Registry : Type 0
Registry = Dict String AgentDescriptor

-- `none` is the ValueError.
unfoldable pub register : AgentDescriptor → Registry → Option Registry
register descriptor agents =
    if is_blank descriptor.actor_id
    then none
    else if is_some (lookup descriptor.actor_id agents)
    then none
    else some (insert descriptor.actor_id descriptor agents)

abbrev pub values : Registry → List AgentDescriptor
values [] = []
values ((key, agent) ∷ agents) = agent ∷ values agents

not_after : Ordering → Bool
not_after Ordering.gt = false
not_after _ = true

-- `(a.priority, a.actor_id) <= (b.priority, b.actor_id)`
precedes : AgentDescriptor → AgentDescriptor → Bool
unfolding not_after
precedes a b =
    if leb_ℤ b.priority a.priority
    then if leb_ℤ a.priority b.priority then not_after (compare a.actor_id b.actor_id) else false
    else true

-- `sorted`, which is stable
unfoldable pub place : AgentDescriptor → List AgentDescriptor → List AgentDescriptor
unfolding precedes
place agent [] = agent ∷ []
place agent (first ∷ rest) =
    let later = place agent rest in
    if precedes agent first then agent ∷ first ∷ rest else first ∷ later

unfoldable pub sorted : List AgentDescriptor → List AgentDescriptor
unfolding place
sorted [] = []
sorted (agent ∷ agents) = place agent (sorted agents)

unfoldable pub online_one : Option AgentDescriptor → List AgentDescriptor
online_one none = []
online_one (some agent) = if agent.online then agent ∷ [] else []

unfoldable pub select : String → Registry → List AgentDescriptor
unfolding online_one
select target agents =
    if target == "*"
    then sorted (keep (λ agent. agent.online) (values agents))
    else sorted (online_one (lookup target agents))
