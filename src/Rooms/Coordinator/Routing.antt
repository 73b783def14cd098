-- ===== src/Rooms/Coordinator/Routing.antt =====
-- Who speaks in a room, to whom and about what: `submit_text` of
-- src/cybercore/communication/room_coordinator.py.
use mathlib.Core.List.{append_assoc}
use cyber_core.Base.{
  String, ◌≡◌, refl, ap, ◌∙◌, ◌⊎◌, inl, inr, Option, none, some, List, [], ◌∷◌, ◌++◌, string_eq,
}
use cyber_core.Base.Exec.{Result, ok, err, ◌>>=◌, pure}
use cyber_core.Base.Exec.Preserves.{Preserves, Preserves-bind, Preserves-pure}
use cyber_core.Rooms.Registry.{TrustedActor, RoomEventDraft, RoomEvent, AgentReply, AgentDescriptor}
use cyber_core.Rooms.Registry.Selection.{Every, Every-append}
use cyber_core.Rooms.Coordinator.{
  Setting, Room, append, new_event_id, now, ask, answer, report, recover, attempt, turn, turns,
  reply_draft, error_draft, agent_actor, system_actor,
}

-- What is appended on an agent's turn: under its own name, or under the system's if it failed, to the
-- person who spoke, in the room and the session, and because of what was said.
pub record IsAnswer (room_id session_id : String) (actor : TrustedActor) (user_event : RoomEvent)
    (Chosen : AgentDescriptor → Type 0) (entry : RoomEventDraft × TrustedActor) : Type 0 where
  pub agent : AgentDescriptor
  pub chosen : Chosen agent
  pub author :
      (entry.1 ≡ agent_actor room_id session_id agent) ⊎ (entry.1 ≡ system_actor room_id session_id)
  pub signed : entry.0.actor_id ≡ entry.1.actor_id
  pub typed : entry.0.actor_type ≡ entry.1.actor_type
  pub room : entry.0.room_id ≡ room_id
  pub session : entry.0.session_id ≡ session_id
  pub target : entry.0.target ≡ actor.actor_id
  pub correlated : entry.0.correlation_id ≡ some user_event.event_id
  pub caused : entry.0.causation_id ≡ some user_event.event_id

-- What has been appended since.
pub record Adds (Q : RoomEventDraft × TrustedActor → Type 0) (before after : Room) : Type 0 where
  pub more : List (RoomEventDraft × TrustedActor)
  pub sent : after.sent ≡ before.sent ++ more
  pub each : Every Q more
  pub agents : after.agents ≡ before.agents

module _ (setting : Setting) (Q : RoomEventDraft × TrustedActor → Type 0) (before : Room) where
  new_event_id-Adds : Preserves (Adds Q before) (new_event_id setting)
  unfolding new_event_id
  new_event_id-Adds = record {
    after = λ r h. record { more = h.more; sent = h.sent; each = h.each; agents = h.agents };
  }

  now-Adds : Preserves (Adds Q before) (now setting)
  unfolding now
  now-Adds = record {
    after = λ r h. record { more = h.more; sent = h.sent; each = h.each; agents = h.agents };
  }

  append-Adds :
      (draft : RoomEventDraft) (by : TrustedActor)
      → Q (draft, by)
      → Preserves (Adds Q before) (append setting draft by)
  unfolding append
  append-Adds draft by q = record {
    after = λ r h. record {
      more = h.more ++ (draft, by) ∷ [];
      sent =
          ap (λ t. t ++ (draft, by) ∷ []) h.sent
          ∙ append_assoc before.sent h.more ((draft, by) ∷ []);
      each = Every-append Q h.more ((draft, by) ∷ []) h.each (q, tt);
      agents = h.agents;
    };
  }

module _ (setting : Setting) (room_id session_id : String) (actor : TrustedActor)
    (user_event : RoomEvent) (Chosen : AgentDescriptor → Type 0) (before : Room) where
  abbrev Answers : RoomEventDraft × TrustedActor → Type 0
  Answers = IsAnswer room_id session_id actor user_event Chosen

  -- A draft that is made by drawing its identifier and its timestamp
  drawn-Adds :
      (draft : String → String → RoomEventDraft) (by : TrustedActor)
      → ((id timestamp : String) → Answers (draft id timestamp, by))
      → Preserves (Adds Answers before) (
          new_event_id setting >>= λ id. now setting >>= λ timestamp.
          append setting (draft id timestamp) by >>= λ event. pure (event ∷ []))
  drawn-Adds draft by shaped = Preserves-bind _ _ (new_event_id-Adds setting Answers before) (λ id.
      Preserves-bind _ _ (now-Adds setting Answers before) (λ timestamp.
        Preserves-bind _ _
          (append-Adds setting Answers before (draft id timestamp) by (shaped id timestamp))
          (λ event. Preserves-pure (event ∷ []))))

  module _ (agent : AgentDescriptor) (chosen : Chosen agent) where
    error_draft-IsAnswer :
        (detail id timestamp : String)
        → Answers (
          error_draft setting room_id session_id actor user_event agent detail id timestamp,
          system_actor room_id session_id,
        )
    unfolding error_draft
    error_draft-IsAnswer detail id timestamp = record {
      agent = agent;
      chosen = chosen;
      author = inr refl;
      signed = refl;
      typed = refl;
      room = refl;
      session = refl;
      target = refl;
      correlated = refl;
      caused = refl;
    }

    reply_draft-IsAnswer :
        (reply : AgentReply) (id timestamp : String)
        → Answers (
          reply_draft setting room_id session_id actor user_event agent reply id timestamp,
          agent_actor room_id session_id agent,
        )
    unfolding reply_draft
    reply_draft-IsAnswer reply id timestamp = record {
      agent = agent;
      chosen = chosen;
      author = inl refl;
      signed = refl;
      typed = refl;
      room = refl;
      session = refl;
      target = refl;
      correlated = refl;
      caused = refl;
    }

    report-Adds :
        (detail : String)
        → Preserves
            (Adds Answers before)
            (report setting room_id session_id actor user_event agent detail)
    unfolding report
    report-Adds detail = drawn-Adds _ _ (error_draft-IsAnswer detail)

    answer-Adds :
        (reply : Option AgentReply)
        → Preserves
            (Adds Answers before)
            (answer setting room_id session_id actor user_event agent reply)
    unfolding answer
    answer-Adds none = Preserves-pure []
    answer-Adds (some reply) = drawn-Adds _ _ (reply_draft-IsAnswer reply)

    ask-Adds :
        Preserves (Adds Answers before) (ask setting room_id session_id actor user_event agent)
    unfolding ask
    ask-Adds = record {
      after = λ r h. record { more = h.more; sent = h.sent; each = h.each; agents = h.agents };
    }

    attempt-Adds :
        Preserves (Adds Answers before) (attempt setting room_id session_id actor user_event agent)
    unfolding attempt
    attempt-Adds = Preserves-bind _ _ ask-Adds answer-Adds

    recover-Adds :
        (tried : Result String (List RoomEvent))
        → Preserves
            (Adds Answers before)
            (recover setting room_id session_id actor user_event agent tried)
    unfolding recover
    recover-Adds (ok events) = Preserves-pure events
    recover-Adds (err detail) = report-Adds detail

    turn-Adds :
        Preserves (Adds Answers before) (turn setting room_id session_id actor user_event agent)
    unfolding turn
    turn-Adds = record {
      after = λ r h.
          let (tried, reached) = attempt setting room_id session_id actor user_event agent r in
          (recover-Adds tried).after reached (attempt-Adds.after r h);
    }

  pub turns-Adds :
      (agents : List AgentDescriptor)
      → Every Chosen agents
      → Preserves (Adds Answers before) (turns setting room_id session_id actor user_event agents)
  unfolding turns
  turns-Adds [] h = Preserves-pure []
  turns-Adds (agent ∷ agents) h = Preserves-bind _ _ (turn-Adds agent h.0) (λ events.
      Preserves-bind _ _ (turns-Adds agents h.1) (λ later. Preserves-pure (events ++ later)))
