-- ===== src/Rooms/Coordinator/Isolation.antt =====
-- An agent that fails does not stop the others: the loop of `submit_text` of
-- src/cybercore/communication/room_coordinator.py.
use cyber_core.Base.{
  ℕ, suc, ◌≤◌, String, false, ◌≡◌, refl, ap, subst, ◌∙◌, inl, inr, Option, none, some, List, [],
  ◌∷◌, ◌++◌, length, length-append, arith,
}
use cyber_core.Base.Text.{is_blank}
use cyber_core.Base.Exec.{Result, ok, ◌>>=◌, Result-cases, continue, pure}
use cyber_core.Base.Exec.Returns.{Returns, Returns-bind, Returns-pure}
use cyber_core.Rooms.Registry.{
  TrustedActor, RoomEventDraft, RoomEvent, AgentReply, AgentDescriptor, select,
}
use cyber_core.Rooms.Coordinator.{
  Setting, Room, Action, append, new_event_id, now, say, answer, report, recover, attempt, turn,
  turns, follow, submit_text, error_draft, system_actor,
}
use cyber_core.Rooms.Coordinator.Submission.{say-IsSaid}

-- The method does not raise, and what it returns is good.
record Surely {A : Type 0} (Good : A → Type 0) (method : Action A) : Type 0 where
  ends : (before : Room) → (a : A) × ((method before).0 ≡ ok a) × Good a

module _ {A B : Type 0} (Known : A → Type 0) (Good : B → Type 0) where
  Surely-bind :
      (method : Action A) (rest : A → Action B)
      → Surely Known method
      → ((a : A) → Known a → Surely Good (rest a))
      → Surely Good (method >>= rest)
  unfolding ◌>>=◌
  Surely-bind method rest first later = record {
    ends = λ before.
        let (a, e, known) = first.ends before in
        let (b, f, good) = (later a known).ends (method before).1 in
        (b, ap (λ r. (continue r rest (method before).1).0) e ∙ f, good);
  }

Surely-pure : {A : Type 0} (Good : A → Type 0) (a : A) → Good a → Surely Good (pure a)
unfolding ◌>>=◌
Surely-pure Good a good = record { ends = λ before. (a, refl, good) }

abbrev pub Takes : Setting → Type 0
Takes setting =
    (sent : List (RoomEventDraft × TrustedActor)) (draft : RoomEventDraft) (by : TrustedActor)
    → (event : RoomEvent) × (setting.gateway sent draft by ≡ ok event)

abbrev AtMost : ℕ → List RoomEvent → Type 0
AtMost n events = length events ≤ n

module _ (setting : Setting) (takes : Takes setting) where
  new_event_id-Surely : Surely (λ _. Unit) (new_event_id setting)
  unfolding new_event_id
  new_event_id-Surely = record { ends = λ before. (_, refl, tt) }

  now-Surely : Surely (λ _. Unit) (now setting)
  unfolding now
  now-Surely = record { ends = λ before. (_, refl, tt) }

  append-Surely :
      (draft : RoomEventDraft) (by : TrustedActor) → Surely (λ _. Unit) (append setting draft by)
  unfolding append
  append-Surely draft by = record {
    ends = λ before. let (event, e) = takes before.sent draft by in (event, e, tt);
  }

  module _ (room_id session_id : String) (actor : TrustedActor) (user_event : RoomEvent) where
    report-Surely :
        (agent : AgentDescriptor) (detail : String)
        → Surely (AtMost 1) (report setting room_id session_id actor user_event agent detail)
    unfolding report
    report-Surely agent detail = Surely-bind _ _ _ _ new_event_id-Surely (λ id _.
        Surely-bind _ _ _ _ now-Surely (λ timestamp _.
          Surely-bind _ _ _ _
            (append-Surely
              (error_draft setting room_id session_id actor user_event agent detail id timestamp)
              (system_actor room_id session_id))
            (λ event _. Surely-pure (AtMost 1) (event ∷ []) (omega arith))))

    answer-short :
        (agent : AgentDescriptor) (reply : Option AgentReply)
        → Returns (AtMost 1) (answer setting room_id session_id actor user_event agent reply)
    unfolding answer
    answer-short agent none = Returns-pure [] (omega arith)
    answer-short agent (some reply) = Returns-bind _ _ (λ id.
        Returns-bind _ _
          (λ timestamp. Returns-bind _ _ (λ event. Returns-pure (event ∷ []) (omega arith))))

    attempt-short :
        (agent : AgentDescriptor)
        → Returns (AtMost 1) (attempt setting room_id session_id actor user_event agent)
    unfolding attempt
    attempt-short agent = Returns-bind _ _ (answer-short agent)

    turn-Surely :
        (agent : AgentDescriptor)
        → Surely (AtMost 1) (turn setting room_id session_id actor user_event agent)
    unfolding turn recover ◌>>=◌
    turn-Surely agent = record {
      ends = λ r.
          let (tried, reached) = attempt setting room_id session_id actor user_event agent r in
          let end = λ (t : Result String (List RoomEvent)).
            (recover setting room_id session_id actor user_event agent t reached).0 in
          elim (Result-cases tried) [
            | inl (events, e) ↦ (events, ap end e, (attempt-short agent).returned r events e)
            | inr (detail, e) ↦
                let (events, f, short) = (report-Surely agent detail).ends reached in
                (events, ap end e ∙ f, short)
          ];
    }

    turns-Surely :
        (agents : List AgentDescriptor)
        → Surely (AtMost (length agents)) (turns setting room_id session_id actor user_event agents)
    unfolding turns
    turns-Surely [] = Surely-pure (AtMost 0) [] (omega arith)
    turns-Surely (agent ∷ agents) = Surely-bind _ _ _ _ (turn-Surely agent) (λ events short.
        Surely-bind _ _ _ _ (turns-Surely agents) (λ later rest.
          Surely-pure (AtMost (suc (length agents))) (events ++ later)
            (omega (arith, short, rest, length-append events later))))

  module _ (room_id session_id : String) (actor : TrustedActor) (said target : String) where
    follow-returns :
        (event : RoomEvent) (r : Room)
        → (events : List RoomEvent) × ((follow setting room_id session_id actor target event r).0
            ≡ ok events)
          × (length events ≤ suc (length (select target r.agents)))
    unfolding follow ◌>>=◌
    follow-returns event r =
        let agents = select target r.agents in
        (Surely-bind _ _ _ _ (turns-Surely room_id session_id actor event agents) (λ later short.
            Surely-pure (AtMost (suc (length agents))) (event ∷ later) (omega (arith, short)))).ends
          r

    -- If the gateway takes whatever it is given, a message that is not blank returns a list of events,
    -- whatever the agents do: at most one more than there are agents that it addresses.
    pub submit_text-returns :
        (event_id : Option String) (before : Room)
        → is_blank said ≡ false
        → (events : List RoomEvent) × ((submit_text setting room_id session_id actor said target
              event_id before).0
            ≡ ok events)
          × (length events ≤ suc (length (select target before.agents)))
    unfolding submit_text ◌>>=◌
    submit_text-returns event_id before h =
        let said_it =
          say-IsSaid setting room_id session_id actor said target "message.text" event_id before in
        let (answer, after) =
          say setting room_id session_id actor said target "message.text" event_id before in
        let (event, taken) = takes before.sent said_it.draft actor in
        let (events, e, short) = follow-returns event after in
        rw h (
          events,
          ap (λ r. (continue r (follow setting room_id session_id actor target) after).0)
                (said_it.answered ∙ taken)
              ∙ e,
          subst (λ a. length events ≤ suc (length (select target a))) said_it.agents short,
        )
