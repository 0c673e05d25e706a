-- ===== src/Entity/Execute.antt =====
-- The interpreter of effects: `executeEffect` and `processCommand` of src/inmem/entity-runner.ts.
use teob_ts.Common.{
  ℕ, zero, suc, ◌+◌, String, Option, none, some, true, false, ◌&&◌, List, [], ◌∷◌, ◌++◌, ◌==◌, ltb,
  leb, if◌then◌else◌, foldl, length,
}
use teob_ts.Common.Maps.{set, delete}
use teob_ts.Effect.{
  persist_then, run_then, reply_with, deferred_with, snapshot_then, stop_now, stash_now,
  unstash_then, done_now,
}
use teob_ts.Envelope.{EventEnvelope, envelope_of}
use teob_ts.Journal
use teob_ts.Journal.{Persisted, persisted, persist_events, persist_snapshot}
use teob_ts.Entity.Types.{
  threw, CtxCall, tell_self, schedule_once, schedule_periodic, cancel_timer, resolved, rejected,
  Attempt, Eff, Wiring, Caller, Message, tell, stop, replied, StashedEntry, PersistedEventRecord,
  Runner, Ran, finished, crashed, out_of_fuel, and_then, duplicate_sequence_nr,
}

abbrev pub snapshot_interval : Option ℕ → ℕ
snapshot_interval none = 100
snapshot_interval (some n) = n

-- The value that a deferred has been completed with.
abbrev pub completion_of : {R : Type 0} → ℕ → List (ℕ × R) → Option R
completion_of d [] = none
completion_of d ((e, value) ∷ rest) = if e == d then some value else completion_of d rest

module _ {C R S J : Type 0} where
  unfoldable pub offer : Message C → Runner C R S J → Runner C R S J
  offer m w = record w { mailbox = w.mailbox ++ m ∷ [] }

  cancel_timer_internal : String → Runner C R S J → Runner C R S J
  cancel_timer_internal id w = record w { timers = delete w.timers id }

  unfoldable pub perform : Runner C R S J → CtxCall C → Runner C R S J
  unfolding offer cancel_timer_internal
  perform w (tell_self c) = offer (tell c) w
  perform w (schedule_once id c) =
      let w' = cancel_timer_internal id w in
      record w' { timers = set w'.timers id (record { command = c; periodic = false }) }
  perform w (schedule_periodic id c) =
      let w' = cancel_timer_internal id w in
      record w' { timers = set w'.timers id (record { command = c; periodic = true }) }
  perform w (cancel_timer id) = cancel_timer_internal id w

  unfoldable pub perform_all : List (CtxCall C) → Runner C R S J → Runner C R S J
  unfolding perform
  perform_all calls w = foldl perform w calls

  -- `replyTo?.(…)`
  unfoldable pub answer : Option Caller → Option R → Runner C R S J → Runner C R S J
  answer none value w = w
  answer (some caller) value w = record w {
    answers =
        w.answers
        ++ (caller.ask_id, replied value w.entity.sequence_nr caller.pre_sequence_nr) ∷ [];
  }

  -- `deferred._promise.then(…)`: a deferred that is completed already answers at once.
  unfoldable pub await_deferred : ℕ → Option Caller → Option R → Runner C R S J → Runner C R S J
  unfolding answer
  await_deferred deferred reply_to (some value) w = answer reply_to (some value) w
  await_deferred deferred reply_to none w = record w {
    waiting =
        w.waiting
        ++ record { deferred = deferred; reply_to = reply_to; sequence_nr = w.entity.sequence_nr }
          ∷ [];
  }

  unfoldable pub stash_entry : C → Option Caller → Runner C R S J → Runner C R S J
  stash_entry c reply_to w = record w {
    entity = record w.entity {
      stashed = w.entity.stashed ++ record { command = c; reply_to = reply_to } ∷ [];
    };
  }

  unfoldable pub take_stash : Runner C R S J → Runner C R S J
  take_stash w = record w { entity = record w.entity { stashed = [] } }

  -- Replays stashed entries in order; an entry that crashes ends the loop.
  unfoldable pub replay_stash :
      (C → Option Caller → Runner C R S J → Ran (Runner C R S J))
      → List (StashedEntry C)
      → Runner C R S J
      → Ran (Runner C R S J)
  replay_stash process [] w = finished w
  replay_stash process (entry ∷ rest) w =
      and_then (process entry.command entry.reply_to w) (λ w'. replay_stash process rest w')

module _ {C R E S J : Type 0} (g : Wiring C R E S J) where
  unfoldable pub envelopes_for : ℕ → List E → List EventEnvelope
  unfolding envelope_of
  envelopes_for minted [] = []
  envelopes_for minted (e ∷ es) =
      envelope_of (g.stamp_of e) (g.ids minted) ∷ envelopes_for (suc minted) es

  unfoldable pub records_of : ℕ → ℕ → List E → List (PersistedEventRecord J)
  unfolding envelope_of
  records_of start minted [] = []
  records_of start minted (e ∷ es) =
      record {
        sequence_nr = suc start;
        manifest = g.event_codec.manifest e;
        encoded = g.event_codec.encode e;
        envelope = envelope_of (g.stamp_of e) (g.ids minted);
      }
      ∷ records_of (suc start) (suc minted) es

  unfoldable pub take_snapshot : Runner C R S J → Runner C R S J
  take_snapshot w = record w {
    journal =
        persist_snapshot g.state_codec g.aggregate.category g.entity_id w.entity.state
          w.entity.sequence_nr w.journal;
    entity = record w.entity { events_since_snapshot = 0 };
  }

  unfoldable pub auto_snapshot : Runner C R S J → Runner C R S J
  unfolding take_snapshot
  auto_snapshot w =
      let every = snapshot_interval g.aggregate.snapshot_every in
      if ltb 0 every && leb every w.entity.events_since_snapshot then take_snapshot w else w

  -- The state after a successful `journal.persistEvents`, before the automatic snapshot.
  unfoldable pub apply_events : List E → ℕ → Journal.Journal J → Runner C R S J → Runner C R S J
  apply_events events new_seq j w = record w {
    journal = j;
    entity = record w.entity {
      state = foldl g.aggregate.apply w.entity.state events;
      sequence_nr = new_seq;
      events_since_snapshot = w.entity.events_since_snapshot + length events;
    };
    minted = w.minted + length events;
  }

  unfoldable pub publish : List E → ℕ → ℕ → Runner C R S J → Runner C R S J
  unfolding records_of
  publish events start minted w = record w {
    published =
        w.published
        ++ record {
          category = g.aggregate.category;
          entity_id = g.entity_id;
          records = records_of start minted events;
          at = w.clock;
        }
          ∷ [];
  }

  unfoldable pub after_persist :
      List E → Runner C R S J → Persisted × Journal.Journal J → Ran (Runner C R S J)
  unfolding apply_events auto_snapshot publish
  after_persist events w (persisted n, j) =
      finished
        (publish events w.entity.sequence_nr w.minted (auto_snapshot (apply_events events n j w)))
  after_persist events w (Journal.duplicate_sequence_nr n, j) =
      crashed (duplicate_sequence_nr n) (record w { journal = j })

  -- The `Persist` case, up to its continuation.
  unfoldable pub persist_step : List E → Runner C R S J → Ran (Runner C R S J)
  unfolding after_persist envelopes_for
  persist_step events w = after_persist events w (
      persist_events g.event_codec g.aggregate.category g.entity_id events w.entity.sequence_nr
        (envelopes_for w.minted events) w.journal)

  -- `await effect.sideEffect()`
  unfoldable pub run_step : Attempt C (Unit {0}) → Runner C R S J → Ran (Runner C R S J)
  unfolding perform_all
  run_step a w = elim a.outcome [
    | resolved _ ↦ finished (perform_all a.calls w)
    | rejected m ↦ crashed (threw m) (perform_all a.calls w)
  ]

  -- `process` is `processCommand`, which `Unstash` calls on each stashed entry.
  unfoldable pub execute_effect :
      (C → Option Caller → Runner C R S J → Ran (Runner C R S J))
      → Eff C R E
      → Option Caller
      → Runner C R S J
      → Ran (Runner C R S J)
  unfolding persist_step run_step take_snapshot answer replay_stash take_stash offer await_deferred
  execute_effect process (persist_then events rest) reply_to w =
      and_then (persist_step events w) (λ w'. execute_effect process rest reply_to w')
  execute_effect process (run_then side_effect rest) reply_to w =
      and_then (run_step side_effect w) (λ w'. execute_effect process rest reply_to w')
  execute_effect process (reply_with value) reply_to w = finished (answer reply_to (some value) w)
  execute_effect process (deferred_with deferred) reply_to w =
      finished (await_deferred deferred reply_to (completion_of deferred w.completions) w)
  execute_effect process (snapshot_then rest) reply_to w =
      execute_effect process rest reply_to (take_snapshot w)
  execute_effect process stop_now reply_to w = finished (offer stop w)
  execute_effect process stash_now reply_to w = finished w
  execute_effect process (unstash_then rest) reply_to w =
      and_then (replay_stash process w.entity.stashed (take_stash w))
        (λ w'. execute_effect process rest reply_to w')
  execute_effect process done_now reply_to w = finished (answer reply_to none w)

  unfoldable pub interpret :
      (C → Option Caller → Runner C R S J → Ran (Runner C R S J))
      → C
      → Eff C R E
      → Option Caller
      → Runner C R S J
      → Ran (Runner C R S J)
  unfolding stash_entry
  interpret process c stash_now reply_to w = finished (stash_entry c reply_to w)
  interpret process c effect reply_to w = execute_effect process effect reply_to w

  -- The fuel bounds how deep `Unstash` replays can nest.
  unfoldable pub process_command : ℕ → C → Option Caller → Runner C R S J → Ran (Runner C R S J)
  unfolding interpret perform_all
  process_command zero c reply_to w = out_of_fuel
  process_command (suc fuel) c reply_to w =
      let attempt = g.aggregate.decide w.entity.state c in
      elim attempt.outcome [
        | rejected m ↦ crashed (threw m) (perform_all attempt.calls w)
        | resolved effect ↦
            interpret (process_command fuel) c effect reply_to (perform_all attempt.calls w)
      ]
