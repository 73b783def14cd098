-- ===== src/LongRun/Engine/Steps/Log.antt =====
-- The log of events of src/cybercore/longrun/state.py, under a run of engine.py.
use cyber_core.Base.{
  string_eq, ℕ, ◌+◌, String, ◌≡◌, refl, sym, ap, ◌∙◌, List, [], ◌∷◌, ◌++◌, length, length-append,
  is_some, inl, inr, arith, lookup, Dict, Bool-cases, Option-cases,
}
use mathlib.Core.List.{append-nil, append_assoc}
use cyber_core.Base.Float.{Float}
use cyber_core.Base.Exec.{Result, ◌>>=◌}
use cyber_core.Base.Exec.Preserves.{Preserves, Preserves-bind, Preserves-pure}
use cyber_core.LongRun.Types.{RunState, RunEvent, Payload, Error}
use cyber_core.LongRun.Manifest.{Manifest}
use cyber_core.LongRun.Store
use cyber_core.LongRun.Store.{Store}
use cyber_core.LongRun.Engine.{Callbacks, Machine, on_store, call, persist}
use cyber_core.LongRun.Engine.Steps.{run_until_terminal}
use cyber_core.LongRun.Engine.Steps.Rules.{run_until_terminal-rule}

-- The events are numbered on from a number.
abbrev pub IsNumbered : ℕ → List RunEvent → Type 0
IsNumbered n [] = Unit
IsNumbered n (e ∷ rest) = (e.id ≡ n + 1) × IsNumbered (n + 1) rest

-- The log has grown, by events whose identifiers go on from the last.
pub record IsAppended (s t : Store) : Type 0 where
  pub events : List RunEvent
  pub log : t.events ≡ s.events ++ events
  pub numbered : IsNumbered s.last_id events
  pub last : t.last_id ≡ s.last_id + length events

IsNumbered-append :
    (n : ℕ) (xs : List RunEvent) (e : RunEvent)
    → IsNumbered n xs
    → e.id ≡ n + length xs + 1
    → IsNumbered n (xs ++ e ∷ [])
IsNumbered-append n [] e h last = (omega (arith, last), tt)
IsNumbered-append n (x ∷ xs) e h last =
    (h.0, IsNumbered-append (n + 1) xs e h.1 (omega (arith, last)))

IsAppended-refl : (s : Store) → IsAppended s s
IsAppended-refl s = record {
  events = [];
  log = sym (append-nil s.events);
  numbered = tt;
  last = omega arith;
}

append_row-IsAppended :
    (s t : Store) (row : RunEvent) (runs : Dict String RunState)
    → IsAppended s t
    → row.id ≡ t.last_id + 1
    → IsAppended s record { runs = runs; events = t.events ++ row ∷ []; last_id = t.last_id + 1 }
append_row-IsAppended s t row runs h id = record {
  events = h.events ++ row ∷ [];
  log = ap (λ x. x ++ row ∷ []) h.log ∙ append_assoc s.events h.events (row ∷ []);
  numbered = IsNumbered-append s.last_id h.events row h.numbered (omega (arith, h.last, id));
  last = omega (arith, h.last, length-append h.events (row ∷ []));
}

module _ (s : Store) where
  save_with_event-Appended :
      (state : RunState) (kind : String) (payload : Payload) (now : Float) (t : Store)
      → IsAppended s t
      → IsAppended s (Store.save_with_event state kind payload now t).1
  unfolding Store.save_with_event Store.append_row Store.update_row ◌>>=◌
  save_with_event-Appended state kind payload now t h =
      elim (Option-cases (Store.encode_failure payload)) [
        | inl fine ↦ rw fine (append_row-IsAppended s t _ _ h refl)
        | inr (name, failed) ↦ rw failed h
      ]

  create_with_event-Appended :
      (state : RunState) (kind : String) (payload : Payload) (now : Float) (t : Store)
      → IsAppended s t
      → IsAppended s (Store.create_with_event state kind payload now t).1
  unfolding Store.create_with_event Store.append_row ◌>>=◌
  create_with_event-Appended state kind payload now t h =
      elim (Option-cases (Store.encode_failure payload)) [
        | inr (name, failed) ↦ rw failed h
        | inl fine ↦ elim (Bool-cases (is_some (lookup state.run_id t.runs))) [
          | inl taken ↦ rw fine (rw taken h)
          | inr new ↦ rw fine (rw new (append_row-IsAppended s t _ _ h refl))
        ]
      ]

module _ {W : Type 0} (s : Store) where
  abbrev Appended : Machine W → Type 0
  Appended e = IsAppended s e.store

  on_store-Appended :
      (method : Store → Result Error Unit × Store)
      → ((t : Store) → IsAppended s t → IsAppended s (method t).1)
      → Preserves Appended (on_store method)
  unfolding on_store ◌>>=◌
  on_store-Appended method kept = record { after = λ e h. kept e.store h }

  persist-Appended :
      (state : RunState) (kind : String) (payload : Payload)
      → Preserves Appended (persist state kind payload)
  unfolding persist
  persist-Appended state kind payload =
      Preserves-bind _ _
        (on_store-Appended _ (save_with_event-Appended s state kind payload state.updated_at))
        (λ _. Preserves-pure state)

  call-Appended : {A : Type 0} (f : W → A × W) → Preserves Appended (call f)
  unfolding call
  call-Appended f = record { after = λ e h. h }

-- A run, however it ends, only appends to the log of events, and it numbers the events that it adds
-- from the last identifier on, with no gap.
pub run-IsAppended :
    {W : Type 0} (m : Manifest) (c : Callbacks W) (steps : ℕ) (e : Machine W)
    → IsAppended e.store (run_until_terminal m c steps e).1.store
run-IsAppended m c steps e =
    (run_until_terminal-rule m c
        record {
          clock = call-Appended e.store c.clock;
          planner = λ state. call-Appended e.store (c.planner state);
          executor = λ p allowed. call-Appended e.store (c.executor p);
          evaluator = λ f given p r. call-Appended e.store (f p r);
          persisted = persist-Appended e.store;
          created = λ state kind payload now.
              on_store-Appended e.store _
                (create_with_event-Appended e.store state kind payload now);
        }
        steps).after
      e (IsAppended-refl e.store)
