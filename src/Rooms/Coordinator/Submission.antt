-- ===== src/Rooms/Coordinator/Submission.antt =====
-- A message in a room, and what follows it: `submit_text` of
-- src/cybercore/communication/room_coordinator.py.
use mathlib.Core.List.{append-nil, append_assoc}
use cyber_core.Base.{
  ℕ, String, true, ◌≡◌, refl, sym, ap, subst, ◌∙◌, inl, inr, Option, none, some, List, [], ◌∷◌,
  ◌++◌, ◌==◌, string_eq, Bool-cases,
}
use cyber_core.Base.Text.{is_blank}
use cyber_core.Base.Exec.{Result, ok, err, ◌>>=◌, continue}
use cyber_core.Base.Exec.Preserves.{Preserves, Preserves-bind, Preserves-bind-reads, Preserves-pure}
use cyber_core.Rooms.Registry.{TrustedActor, RoomEventDraft, RoomEvent, select}
use cyber_core.Rooms.Registry.Selection.{Every, IsAddressed, select-IsAddressed}
use cyber_core.Rooms.Coordinator.{
  Setting, Room, message_draft, append, new_event_id, now, given_event_id, say, follow, submit_text,
}
use cyber_core.Rooms.Coordinator.Routing.{IsAnswer, Adds, turns-Adds}

-- The draft of a message that the person sends
pub record IsMessage (room_id session_id : String) (actor : TrustedActor)
    (target event_type : String) (draft : RoomEventDraft) : Type 0 where
  pub signed : draft.actor_id ≡ actor.actor_id
  pub typed : draft.actor_type ≡ actor.actor_type
  pub room : draft.room_id ≡ room_id
  pub session : draft.session_id ≡ session_id
  pub addressee : draft.target ≡ target
  pub kind : draft.event_type ≡ event_type
  pub uncaused : draft.causation_id ≡ none

module _ (setting : Setting) (room_id session_id : String) (actor : TrustedActor)
    (said target : String) where
  -- What `append` makes of a message
  pub record IsSaid (event_type : String) (before : Room) (ending : Result String RoomEvent × Room)
      : Type 0 where
    pub draft : RoomEventDraft
    pub message : IsMessage room_id session_id actor target event_type draft
    pub answered : ending.0 ≡ setting.gateway before.sent draft actor
    pub sent : ending.1.sent ≡ before.sent ++ (draft, actor) ∷ []
    pub agents : ending.1.agents ≡ before.agents

  message_draft-IsMessage :
      (event_type id timestamp : String)
      → IsMessage room_id session_id actor target event_type
          (message_draft setting room_id session_id actor said target event_type id timestamp)
  unfolding message_draft
  message_draft-IsMessage event_type id timestamp = record {
    signed = refl;
    typed = refl;
    room = refl;
    session = refl;
    addressee = refl;
    kind = refl;
    uncaused = refl;
  }

  appended-IsSaid :
      (event_type id timestamp : String) (r : Room) (uuids timestamps : ℕ)
      → IsSaid event_type r (
          append setting
            (message_draft setting room_id session_id actor said target event_type id timestamp)
            actor
            (record r { uuids = uuids; timestamps = timestamps }))
  unfolding append
  appended-IsSaid event_type id timestamp r uuids timestamps = record {
    draft = _;
    message = message_draft-IsMessage event_type id timestamp;
    answered = refl;
    sent = refl;
    agents = refl;
  }

  pub say-IsSaid :
      (event_type : String) (event_id : Option String) (r : Room)
      → IsSaid event_type r (say setting room_id session_id actor said target event_type event_id r)
  unfolding say given_event_id new_event_id now ◌>>=◌
  say-IsSaid event_type none r = appended-IsSaid event_type _ _ r _ _
  say-IsSaid event_type (some id) r = elim (Bool-cases (id == "")) [
    | inl blank ↦ rw blank (appended-IsSaid event_type _ _ r _ _)
    | inr named ↦ rw named (appended-IsSaid event_type _ _ r _ _)
  ]

  -- How a call ends: nothing was said; the gateway refused the message; or it took it, and what was
  -- appended after it are the answers of agents that it addressed.
  pub data IsRouted (before : Room) : Result String (List RoomEvent) × Room → Type 0 where
    silent : is_blank said ≡ true → IsRouted before (err "ValueError", before)
    refused :
        (draft : RoomEventDraft) (detail : String) (after : Room)
        → IsMessage room_id session_id actor target "message.text" draft
        → setting.gateway before.sent draft actor ≡ err detail
        → after.sent ≡ before.sent ++ (draft, actor) ∷ []
        → IsRouted before (err detail, after)
    taken :
        (draft : RoomEventDraft) (event : RoomEvent)
        (answers : List (RoomEventDraft × TrustedActor)) (ending : Result String (List RoomEvent))
        (after : Room)
        → IsMessage room_id session_id actor target "message.text" draft
        → setting.gateway before.sent draft actor ≡ ok event
        → Every (IsAnswer room_id session_id actor event (IsAddressed target before.agents)) answers
        → after.sent ≡ before.sent ++ (draft, actor) ∷ answers
        → IsRouted before (ending, after)

  module _ (base : Room) (event : RoomEvent) where
    follow-Adds :
        Preserves
          (Adds (IsAnswer room_id session_id actor event (IsAddressed target base.agents)) base)
          (follow setting room_id session_id actor target event)
    unfolding follow
    follow-Adds = Preserves-bind-reads _ _ (λ r h.
        let chosen : Every (IsAddressed target base.agents) (select target r.agents) =
          subst (λ a. Every (IsAddressed target base.agents) (select target a)) (sym h.agents)
            (select-IsAddressed target base.agents) in
        (Preserves-bind _ _
            (turns-Adds setting room_id session_id actor event (IsAddressed target base.agents) base
              (select target r.agents) chosen)
            (λ later. Preserves-pure (event ∷ later))).after
          r h)

  continued-IsRouted :
      (before : Room) (ending : Result String RoomEvent × Room)
      → IsSaid "message.text" before ending
      → IsRouted before
          (continue ending.0 (follow setting room_id session_id actor target) ending.1)
  continued-IsRouted before (err detail, reached) h =
      refused h.draft detail reached h.message (sym h.answered) h.sent
  continued-IsRouted before (ok event, reached) h =
      let added =
        (follow-Adds reached event).after reached
          (record { more = []; sent = sym (append-nil reached.sent); each = tt; agents = refl }) in
      let (ending, after) = follow setting room_id session_id actor target event reached in
      taken h.draft event added.more ending after h.message (sym h.answered)
        (subst
          (λ a. Every (IsAnswer room_id session_id actor event (IsAddressed target a)) added.more)
          h.agents added.each)
        (added.sent
          ∙ ap (λ t. t ++ added.more) h.sent
          ∙ append_assoc before.sent ((h.draft, actor) ∷ []) added.more)

  -- A message that is not blank is sent to the gateway first, under the name of the person who speaks.
  -- If the gateway takes it, all that is sent after it are answers: each is on the turn of an agent
  -- that is registered, online and addressed, under that agent's name or the system's, in the same room
  -- and session, to the person, and correlated to the event that the gateway made of the message.
  pub submit_text-IsRouted :
      (event_id : Option String) (before : Room)
      → IsRouted before (submit_text setting room_id session_id actor said target event_id before)
  unfolding submit_text ◌>>=◌
  submit_text-IsRouted event_id before = elim (Bool-cases (is_blank said)) [
    | inl blank ↦ rw blank (silent blank)
    | inr said_something ↦
        rw said_something (continued-IsRouted before _ (say-IsSaid "message.text" event_id before))
  ]
