-- ===== src/Rooms/Coordinator.antt =====
-- `RoomCoordinator` of src/cybercore/communication/room_coordinator.py. The gateway answers, or raises an
-- exception of a type of that name, on what it was asked to append before; identifiers and timestamps
-- are drawn from sequences.
pub mod Routing
pub mod Submission
pub mod Isolation
mod Tests
use cyber_core.Base.{
  ℕ, ◌+◌, String, Bool, true, false, Option, none, some, List, [], ◌∷◌, ◌++◌, Dict, insert, ◌==◌,
  string_eq, if◌then◌else◌,
}
use cyber_core.Base.Text.{concat, is_blank}
use cyber_core.Base.Exec.{Result, ok, err, Exec, pure, raise_if, reads, ◌>>=◌, ◌>>◌}
use cyber_core.Execution.Json.{Json, text}
use cyber_core.Rooms.Registry.{
  TrustedActor, RoomEventDraft, RoomEvent, AgentReply, AgentDescriptor, Registry, select,
}

pub record Setting : Type 0 where
  -- `gateway.append`
  pub gateway :
      List (RoomEventDraft × TrustedActor) → RoomEventDraft → TrustedActor → Result String RoomEvent
  -- `uuid.uuid4().hex` and `datetime.now(timezone.utc).isoformat()`
  pub uuid : ℕ → String
  pub timestamp : ℕ → String

-- What changes: what the gateway was asked to append, in order, how often agents were asked, and the
-- readings taken.
pub record Room : Type 0 where
  pub agents : Registry
  pub sent : List (RoomEventDraft × TrustedActor)
  pub asked : ℕ
  pub uuids : ℕ
  pub timestamps : ℕ

abbrev pub Action : Type 0 → Type 0
Action A = Exec String Room A

abbrev payload_of : String → Dict String Json
payload_of said = ("text", text said) ∷ []

-- `{**first, **dict(second)}`
merge : Dict String Json → Dict String Json → Dict String Json
merge first [] = first
merge first ((key, value) ∷ second) = merge (insert key value first) second

abbrev pub system_actor : String → String → TrustedActor
system_actor room_id session_id = record {
  actor_id = "cybercore.system";
  actor_type = "system";
  display_name = "CyberCore";
  room_ids = room_id ∷ [];
  session_ids = session_id ∷ [];
}

abbrev pub agent_actor : String → String → AgentDescriptor → TrustedActor
agent_actor room_id session_id agent = record {
  actor_id = agent.actor_id;
  actor_type = "agent";
  display_name = agent.display_name;
  room_ids = room_id ∷ [];
  session_ids = session_id ∷ [];
}

module _ (setting : Setting) where
  -- `f"evt_{uuid.uuid4().hex}"`
  new_event_id : Action String
  new_event_id r =
      (ok (concat ("evt_" ∷ setting.uuid r.uuids ∷ [])), record r { uuids = r.uuids + 1 })

  now : Action String
  now r = (ok (setting.timestamp r.timestamps), record r { timestamps = r.timestamps + 1 })

  -- `event_id or f"evt_{uuid.uuid4().hex}"`
  given_event_id : Option String → Action String
  unfolding new_event_id
  given_event_id none = new_event_id
  given_event_id (some id) = if id == "" then new_event_id else pure id

  -- `gateway.append`
  pub append : RoomEventDraft → TrustedActor → Action RoomEvent
  append draft actor r =
      (setting.gateway r.sent draft actor, record r { sent = r.sent ++ (draft, actor) ∷ [] })

  -- What a person says
  module _ (room_id session_id : String) (actor : TrustedActor)
      (said target event_type : String) where
    message_draft : String → String → RoomEventDraft
    message_draft id timestamp = record {
      event_id = id;
      room_id = room_id;
      session_id = session_id;
      actor_id = actor.actor_id;
      actor_type = actor.actor_type;
      target = target;
      event_type = event_type;
      payload = payload_of said;
      correlation_id = none;
      causation_id = none;
      metadata = [];
      timestamp = timestamp;
    }

    pub say : Option String → Action RoomEvent
    say event_id = do
      id ← given_event_id event_id
      timestamp ← now
      append (message_draft id timestamp) actor

  module _ (room_id session_id : String) (actor : TrustedActor) (user_event : RoomEvent) where
    -- `descriptor.handler.respond`
    ask : AgentDescriptor → Action (Option AgentReply)
    ask agent r = (agent.handler r.asked user_event, record r { asked = r.asked + 1 })

    reply_draft : AgentDescriptor → AgentReply → String → String → RoomEventDraft
    unfolding merge
    reply_draft agent reply id timestamp = record {
      event_id = id;
      room_id = room_id;
      session_id = session_id;
      actor_id = agent.actor_id;
      actor_type = "agent";
      target = actor.actor_id;
      event_type = "message.text";
      payload = payload_of reply.text;
      correlation_id = some user_event.event_id;
      causation_id = some user_event.event_id;
      metadata = merge (("display_name", text agent.display_name) ∷ []) reply.metadata;
      timestamp = timestamp;
    }

    error_draft : AgentDescriptor → String → String → String → RoomEventDraft
    error_draft agent detail id timestamp = record {
      event_id = id;
      room_id = room_id;
      session_id = session_id;
      actor_id = "cybercore.system";
      actor_type = "system";
      target = actor.actor_id;
      event_type = "system.error";
      payload =
          ("code", text "agent_failed")
          ∷ ("agent_id", text agent.actor_id)
          ∷ ("detail", text detail)
          ∷ [];
      correlation_id = some user_event.event_id;
      causation_id = some user_event.event_id;
      metadata = [];
      timestamp = timestamp;
    }

    answer : AgentDescriptor → Option AgentReply → Action (List RoomEvent)
    answer agent none = pure []
    answer agent (some reply) = do
      id ← new_event_id
      timestamp ← now
      event ← append (reply_draft agent reply id timestamp) (agent_actor room_id session_id agent)
      pure (event ∷ [])

    report : AgentDescriptor → String → Action (List RoomEvent)
    report agent detail = do
      id ← new_event_id
      timestamp ← now
      event ← append (error_draft agent detail id timestamp) (system_actor room_id session_id)
      pure (event ∷ [])

    -- The `except` clause, after the body of the `try`
    recover : AgentDescriptor → Result String (List RoomEvent) → Action (List RoomEvent)
    recover agent (ok events) = pure events
    recover agent (err detail) = report agent detail

    attempt : AgentDescriptor → Action (List RoomEvent)
    attempt agent = do reply ← ask agent; answer agent reply

    -- One turn of the loop
    turn : AgentDescriptor → Action (List RoomEvent)
    turn agent r = let (tried, after) = attempt agent r in recover agent tried after

    pub turns : List AgentDescriptor → Action (List RoomEvent)
    turns [] = pure []
    turns (agent ∷ agents) = do events ← turn agent; later ← turns agents; pure (events ++ later)

  -- The loop over the agents, once the message is appended
  follow : String → String → TrustedActor → String → RoomEvent → Action (List RoomEvent)
  follow room_id session_id actor target user_event = do
    selected ← reads (λ r. select target r.agents)
    later ← turns room_id session_id actor user_event selected
    pure (user_event ∷ later)

  pub submit_text :
      String → String → TrustedActor → String → String → Option String → Action (List RoomEvent)
  submit_text room_id session_id actor said target event_id = do
    raise_if (is_blank said) "ValueError"
    user_event ← say room_id session_id actor said target "message.text" event_id
    follow room_id session_id actor target user_event

  pub submit_voice_transcript :
      String → String → TrustedActor → String → String → Option String → Action RoomEvent
  submit_voice_transcript room_id session_id actor transcript target event_id = do
    raise_if (is_blank transcript) "ValueError"
    say room_id session_id actor transcript target "message.voice.transcript" event_id
