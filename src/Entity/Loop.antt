-- ===== src/Entity/Loop.antt =====
-- Recovery, the message loop and what the outside does to a runner: `recover`, `run`, `terminate`
-- and the callbacks of timers and deferred replies, of src/inmem/entity-runner.ts.
use teob_ts.Common.{
  ℕ, zero, suc, String, Option, none, some, true, false, List, [], ◌∷◌, ◌++◌, ◌==◌, if◌then◌else◌,
  length, filter, not,
}
use teob_ts.Common.Maps.{get, delete}
use teob_ts.Journal.{
  Journal, LoadedSnapshot, no_snapshot, snapshot_at, snapshot_undecodable, load_events,
  load_snapshot,
}
use teob_ts.Entity.Types.{
  Failure, decode_failed, entity_stopped, entity_crashed, Wiring, Caller, Message, tell, ask,
  timer_fired, stop, Answer, replied, timed_out, failed, EntityState, Waiting, Runner, Ran,
  finished, crashed, out_of_fuel,
}
use teob_ts.Entity.Execute.{offer, completion_of, run_step, process_command}

-- `for (const { sequenceNr, event } of events) { state = apply(state, event); seqNr = … }`
unfoldable pub replay : {E S : Type 0} → (S → E → S) → S → ℕ → List (ℕ × E) → S × ℕ
replay apply state seq [] = (state, seq)
replay apply state seq ((n, e) ∷ rest) = replay apply (apply state e) n rest

module _ {C R E S J : Type 0} (g : Wiring C R E S J) where
  -- The state and number that a snapshot gives, if it is read and can be decoded.
  unfoldable pub start_from : LoadedSnapshot S → S × ℕ
  start_from no_snapshot = (g.aggregate.initial g.entity_id, 0)
  start_from (snapshot_at n s) = (s, n)
  start_from snapshot_undecodable = (g.aggregate.initial g.entity_id, 0)

  unfoldable pub recovery_start : Journal J → S × ℕ
  unfolding start_from
  recovery_start j =
      if g.ignore_snapshots_on_recovery
      then (g.aggregate.initial g.entity_id, 0)
      else start_from (load_snapshot g.state_codec g.aggregate.category g.entity_id j)

  unfoldable pub recover_from : S × ℕ → Option (List (ℕ × E)) → Option (EntityState C S)
  unfolding replay
  recover_from begin none = none
  recover_from begin (some events) =
      let (state, seq) = replay g.aggregate.apply begin.0 begin.1 events in
      some (record { state = state; sequence_nr = seq; stashed = []; events_since_snapshot = 0 })

  -- `recover()`; `none` when an event cannot be decoded.
  unfoldable pub recover : Journal J → Option (EntityState C S)
  unfolding recovery_start recover_from
  recover j =
      recover_from (recovery_start j)
        (load_events g.event_codec g.aggregate.category g.entity_id (recovery_start j).1 j)

  -- `createEntityRunner`, before `run`.
  unfoldable pub create_entity_runner : Journal J → ℕ → ℕ → Runner C R S J
  create_entity_runner j minted clock = record {
    entity = record {
      state = g.aggregate.initial g.entity_id;
      sequence_nr = 0;
      stashed = [];
      events_since_snapshot = 0;
    };
    journal = j;
    mailbox = [];
    timers = [];
    waiting = [];
    completions = [];
    answers = [];
    published = [];
    minted = minted;
    clock = clock;
    terminated = false;
  }

unfoldable pub reject_queued : {C R : Type 0} → Failure → List (Message C) → List (ℕ × Answer R)
reject_queued reason [] = []
reject_queued reason (ask c id ∷ rest) = (id, failed reason) ∷ reject_queued reason rest
reject_queued reason (tell c ∷ rest) = reject_queued reason rest
reject_queued reason (timer_fired t c ∷ rest) = reject_queued reason rest
reject_queued reason (stop ∷ rest) = reject_queued reason rest

abbrev termination_reason : Option Failure → Failure
termination_reason none = entity_stopped
termination_reason (some e) = entity_crashed e

-- What the handlers that wait answer; one that was told, not asked, answers nobody.
unfoldable pub answers_of :
    {R : Type 0} → (Waiting → Caller → Answer R) → List Waiting → List (ℕ × Answer R)
answers_of settle [] = []
answers_of settle (x ∷ rest) = elim x.reply_to [
  | none ↦ answers_of settle rest
  | some caller ↦ (caller.ask_id, settle x caller) ∷ answers_of settle rest
]

abbrev nth_waiting : ℕ → List Waiting → List Waiting
nth_waiting n [] = []
nth_waiting zero (x ∷ rest) = x ∷ []
nth_waiting (suc n) (x ∷ rest) = nth_waiting n rest

abbrev without_nth : ℕ → List Waiting → List Waiting
without_nth n [] = []
without_nth zero (x ∷ rest) = rest
without_nth (suc n) (x ∷ rest) = x ∷ without_nth n rest

module _ {C R S J : Type 0} where
  unfoldable pub terminate : Option Failure → Runner C R S J → Runner C R S J
  unfolding reject_queued
  terminate error w = record w {
    terminated = true;
    timers = [];
    mailbox = [];
    answers = w.answers ++ reject_queued (termination_reason error) w.mailbox;
  }

  -- How `run()` goes on after a message; a crash first reaches the asker.
  unfoldable pub conclude : Option ℕ → Ran (Runner C R S J) → Ran (Runner C R S J)
  unfolding terminate
  conclude asker (finished w) = finished w
  conclude none (crashed e w) = crashed e (terminate (some e) w)
  conclude (some id) (crashed e w) =
      crashed e (terminate (some e) (record w { answers = w.answers ++ (id, failed e) ∷ [] }))
  conclude asker out_of_fuel = out_of_fuel

  -- A timer's callback, if the timer is armed: a one-shot timer disarms itself.
  unfoldable pub fire_timer : String → Runner C R S J → Runner C R S J
  unfolding offer
  fire_timer id w = elim (get w.timers id) [
    | none ↦ w
    | some t ↦
        offer (timer_fired id t.command)
          (if t.periodic then w else record w { timers = delete w.timers id })
  ]

  unfoldable pub complete_first : ℕ → R → Option R → Runner C R S J → Runner C R S J
  unfolding answers_of
  complete_first d value (some _) w = w
  complete_first d value none w = record w {
    waiting = filter (λ x. not (x.deferred == d)) w.waiting;
    completions = (d, value) ∷ w.completions;
    answers =
        w.answers
        ++ answers_of (λ x caller. replied (some value) x.sequence_nr caller.pre_sequence_nr)
            (filter (λ x. x.deferred == d) w.waiting);
  }

  -- `deferred.complete(value)`: the first completion counts; every handler that waits for it answers.
  unfoldable pub complete_deferred : ℕ → R → Runner C R S J → Runner C R S J
  unfolding complete_first
  complete_deferred d value w = complete_first d value (completion_of d w.completions) w

  -- The ask timeout of the n-th handler that waits for a deferred reply.
  unfoldable pub time_out_deferred : ℕ → Runner C R S J → Runner C R S J
  unfolding answers_of
  time_out_deferred n w = record w {
    waiting = without_nth n w.waiting;
    answers = w.answers ++ answers_of (λ x caller. timed_out) (nth_waiting n w.waiting);
  }

module _ {C R E S J : Type 0} (g : Wiring C R E S J) where
  -- The fuel of one message: an entry of the stash for each level of replay.
  abbrev pub fuel_for : Runner C R S J → ℕ
  fuel_for w = suc (length w.entity.stashed)

  process_one : C → Option Caller → Option ℕ → Runner C R S J → Ran (Runner C R S J)
  unfolding process_command conclude
  process_one c caller asker w = conclude asker (process_command g (fuel_for w) c caller w)

  -- The body of the message loop.
  unfoldable pub handle_message : Message C → Runner C R S J → Ran (Runner C R S J)
  unfolding process_one terminate
  handle_message (tell c) w = process_one c none none w
  handle_message (ask c id) w =
      process_one c (some (record { ask_id = id; pre_sequence_nr = w.entity.sequence_nr }))
        (some id) w
  handle_message (timer_fired t c) w = process_one c none none w
  handle_message stop w = finished (terminate none w)

  abbrev take_message : Message C → List (Message C) → Runner C R S J → Ran (Runner C R S J)
  take_message m rest w = handle_message m (record w { mailbox = rest })

  unfoldable pub take_first : List (Message C) → Runner C R S J → Ran (Runner C R S J)
  unfolding handle_message
  take_first [] w = finished w
  take_first (m ∷ rest) w = take_message m rest w

  -- One turn of the loop; a runner that waits for a message, or has terminated, stays as it is.
  unfoldable pub turn : Runner C R S J → Ran (Runner C R S J)
  unfolding take_first
  turn w = if w.terminated then finished w else take_first w.mailbox w

  unfoldable pub start_with : Option (EntityState C S) → Runner C R S J → Ran (Runner C R S J)
  unfolding run_step terminate conclude
  start_with none w = crashed decode_failed (terminate (some decode_failed) w)
  start_with (some s) w =
      let w' = record w { entity = s } in
      elim g.aggregate.on_recovery_complete [
        | none ↦ finished w'
        | some f ↦ conclude none (run_step g (f s.state) w')
      ]

  -- The recovery phase of `run()`.
  unfoldable pub start : Runner C R S J → Ran (Runner C R S J)
  unfolding start_with recover
  start w = start_with (recover g w.journal) w
