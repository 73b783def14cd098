-- ===== src/Rooms/Coordinator/Tests.antt =====
-- Runs of the coordinator of src/cybercore/communication/room_coordinator.py on a concrete room, and the
-- theorems about it there.
use cyber_core.Base.{
  ℕ, suc, ◌≤◌, String, Bool, true, false, ◌≡◌, refl, Option, none, some, List, [], ◌∷◌, map, length,
  lookup, insert, keep,
}
use cyber_core.Base.Int.{pos, leb_ℤ}
use cyber_core.Base.Text.{is_blank, concat}
use cyber_core.Base.Exec.{Result, ok, err, ◌>>=◌}
use cyber_core.Rooms.Registry.{
  TrustedActor, RoomEventDraft, RoomEvent, AgentReply, AgentDescriptor, Registry, register, select,
  sorted, place, online_one,
}
use cyber_core.Rooms.Coordinator.{
  Setting, Room, submit_text, say, given_event_id, new_event_id, now, append, follow, turns, turn,
  attempt, ask, answer, report, recover, message_draft, reply_draft, error_draft, merge,
}
use cyber_core.Rooms.Coordinator.Submission.{IsRouted, submit_text-IsRouted}
use cyber_core.Rooms.Coordinator.Isolation.{submit_text-returns}

abbrev event_of : List (RoomEventDraft × TrustedActor) → RoomEventDraft → RoomEvent
event_of sent draft = record {
  event_id = draft.event_id;
  timestamp = draft.timestamp;
  sequence = pos (length sent);
  room_id = draft.room_id;
  session_id = draft.session_id;
  actor_id = draft.actor_id;
  actor_type = draft.actor_type;
  target = draft.target;
  event_type = draft.event_type;
  payload = draft.payload;
  correlation_id = draft.correlation_id;
  causation_id = draft.causation_id;
  metadata = draft.metadata;
  previous_hash = none;
  event_hash = "";
}

abbrev setting : Setting
setting = record {
  gateway = λ sent draft by. ok (event_of sent draft);
  uuid = λ n. "0";
  timestamp = λ n. "2026-01-01T00:00:00+00:00";
}

abbrev agent : String → ℕ → Bool → Result String (Option AgentReply) → AgentDescriptor
agent name priority online reply = record {
  actor_id = name;
  display_name = name;
  handler = λ n event. reply;
  online = online;
  priority = pos priority;
  voice_identity = none;
}

abbrev agents : Registry
agents =
    ("late", agent "late" 200 true (ok (some (record { text = "hello"; metadata = [] }))))
    ∷ ("broken", agent "broken" 100 true (err "TimeoutError"))
    ∷ ("quiet", agent "quiet" 100 true (ok none))
    ∷ ("away", agent "away" 1 false (ok none))
    ∷ []

abbrev jan : TrustedActor
jan = record {
  actor_id = "jan";
  actor_type = "human";
  display_name = "Jan";
  room_ids = "lab" ∷ [];
  session_ids = [];
}

abbrev room : Room
room = record { agents = agents; sent = []; asked = 0; uuids = 0; timestamps = 0 }

selected :
    (map (λ a. a.actor_id) (select "*" agents) ≡ "broken" ∷ "quiet" ∷ "late" ∷ [])
    × (map (λ a. a.actor_id) (select "away" agents) ≡ [])
    × (map (λ a. a.actor_id) (select "late" agents) ≡ "late" ∷ [])
unfolding select sorted place online_one keep lookup leb_ℤ
selected = (refl, refl, refl)

registered :
    (register (agent " " 1 true (ok none)) agents ≡ none)
    × (register (agent "late" 1 true (ok none)) agents ≡ none)
unfolding register is_blank lookup
registered = (refl, refl)

abbrev types : Result String (List RoomEvent) → List (String × String)
types (ok events) = map (λ e. (e.event_type, e.actor_id)) events
types (err _) = []

spoken :
    types (submit_text setting "lab" "s1" jan "hi" "*" none room).0
    ≡ ("message.text", "jan") ∷ ("system.error", "cybercore.system") ∷ ("message.text", "late") ∷ []
unfolding submit_text say given_event_id new_event_id now append follow turns turn attempt ask
    answer report recover message_draft reply_draft error_draft merge is_blank concat select sorted
    place online_one keep lookup insert leb_ℤ ◌>>=◌
spoken = refl

submit_text-IsRouted_example :
    IsRouted setting "lab" "s1" jan "hi" "*" room
      (submit_text setting "lab" "s1" jan "hi" "*" none room)
submit_text-IsRouted_example = submit_text-IsRouted setting "lab" "s1" jan "hi" "*" none room

submit_text-returns_example :
    (events : List RoomEvent) × ((submit_text setting "lab" "s1" jan "hi" "*" none room).0
      ≡ ok events)
    × (length events ≤ suc (length (select "*" agents)))
unfolding is_blank
submit_text-returns_example =
    submit_text-returns setting (λ sent draft by. (event_of sent draft, refl)) "lab" "s1" jan "hi"
      "*" none room refl
