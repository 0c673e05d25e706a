-- ===== src/Entity/Answers.antt =====
-- Who gets an answer: an ask whose effect ends in a reply is answered once, crash or not.
use teob_ts.Common.{
  ℕ, suc, Option, none, some, List, [], ◌∷◌, ◌++◌, ◌≡◌, refl, ap, ◌∙◌, map, if_elim,
}
use teob_ts.Effect.{
  persist_then, run_then, reply_with, deferred_with, snapshot_then, stop_now, stash_now,
  unstash_then, done_now,
}
use teob_ts.Journal
use teob_ts.Journal.{Persisted, persisted}
use teob_ts.Entity.Types.{
  Failure, CtxCall, tell_self, schedule_once, schedule_periodic, cancel_timer, Settled, resolved,
  rejected, Attempt, Eff, Wiring, Caller, Message, tell, ask, timer_fired, stop, Answer, replied,
  failed, entity_crashed, Runner, Ran, finished, crashed, out_of_fuel, and_then,
}
use teob_ts.Entity.Execute.{
  perform, perform_all, answer, take_snapshot, auto_snapshot, publish, apply_events, after_persist,
  persist_step, run_step, execute_effect, interpret, process_command,
}
use teob_ts.Entity.Loop.{conclude, terminate, reject_queued, handle_message}

-- The effect writes, runs and takes snapshots, and ends in `Reply` or `Done`: its value, if any.
abbrev pub ending : {C R E : Type 0} → Eff C R E → Option (Option R)
ending (persist_then es rest) = ending rest
ending (run_then a rest) = ending rest
ending (snapshot_then rest) = ending rest
ending (reply_with v) = some (some v)
ending done_now = some none
ending (deferred_with d) = none
ending stop_now = none
ending stash_now = none
ending (unstash_then rest) = none

-- The asks among messages, in order.
abbrev pub asks_in : {C : Type 0} → List (Message C) → List ℕ
asks_in [] = []
asks_in (ask c id ∷ rest) = id ∷ asks_in rest
asks_in (tell c ∷ rest) = asks_in rest
asks_in (timer_fired t c ∷ rest) = asks_in rest
asks_in (stop ∷ rest) = asks_in rest

asks_in-tell :
    {C : Type 0} (ms : List (Message C)) (c : C) → asks_in (ms ++ tell c ∷ []) ≡ asks_in ms
asks_in-tell [] c = refl
asks_in-tell (ask d id ∷ rest) c = ap (λ l. id ∷ l) (asks_in-tell rest c)
asks_in-tell (tell d ∷ rest) c = asks_in-tell rest c
asks_in-tell (timer_fired t d ∷ rest) c = asks_in-tell rest c
asks_in-tell (stop ∷ rest) c = asks_in-tell rest c

-- The same failure for each of these asks.
abbrev pub all_failed : {R : Type 0} → Failure → List ℕ → List (ℕ × Answer R)
all_failed e ids = map (λ id. (id, failed e)) ids

reject_queued-asks :
    {C R : Type 0} (e : Failure) (ms : List (Message C))
    → reject_queued {R = R} e ms ≡ all_failed e (asks_in ms)
unfolding reject_queued
reject_queued-asks e [] = refl
reject_queued-asks e (ask c id ∷ rest) = ap (λ l. (id, failed e) ∷ l) (reject_queued-asks e rest)
reject_queued-asks e (tell c ∷ rest) = reject_queued-asks e rest
reject_queued-asks e (timer_fired t c ∷ rest) = reject_queued-asks e rest
reject_queued-asks e (stop ∷ rest) = reject_queued-asks e rest

module _ {C R S J : Type 0} where
  -- The same answers as in the first runner, and the same asks in the queue.
  abbrev Same : Runner C R S J → Runner C R S J → Type 0
  Same o w = (w.answers ≡ o.answers) × (asks_in w.mailbox ≡ asks_in o.mailbox)

  -- The work has answered nobody, as yet.
  abbrev Silent : Runner C R S J → Ran (Runner C R S J) → Type 0
  Silent o (finished w) = Same o w
  Silent o (crashed e w) = Same o w
  Silent o out_of_fuel = ⊥

  -- The work has given this value to the caller, with the number behind its writes, or has crashed
  -- before that.
  abbrev Answers : Runner C R S J → Caller → Option R → Ran (Runner C R S J) → Type 0
  Answers o caller value (finished w) =
      w.answers
      ≡ o.answers ++ (caller.ask_id, replied value w.entity.sequence_nr caller.pre_sequence_nr) ∷ []
  Answers o caller value (crashed e w) = Same o w
  Answers o caller value out_of_fuel = ⊥

  Answers-and_then :
      (o : Runner C R S J) (caller : Caller) (value : Option R) (r : Ran (Runner C R S J))
      (f : Runner C R S J → Ran (Runner C R S J))
      → Silent o r
      → ((w : Runner C R S J) → Same o w → Answers o caller value (f w))
      → Answers o caller value (and_then r f)
  Answers-and_then o caller value (finished w) f h k = k w h
  Answers-and_then o caller value (crashed e w) f h k = h
  Answers-and_then o caller value out_of_fuel f h k = h

  Same-trans : (o v w : Runner C R S J) → Same o v → Same v w → Same o w
  Same-trans o v w h k = (k.0 ∙ h.0, k.1 ∙ h.1)

  Silent-from :
      (o v : Runner C R S J) (r : Ran (Runner C R S J)) → Same o v → Silent v r → Silent o r
  Silent-from o v (finished w) h k = Same-trans o v w h k
  Silent-from o v (crashed e w) h k = Same-trans o v w h k
  Silent-from o v out_of_fuel h k = k

  perform-Same : (w : Runner C R S J) (c : CtxCall C) → Same w (perform w c)
  unfolding perform
  perform-Same w (tell_self c) = (refl, asks_in-tell w.mailbox c)
  perform-Same w (schedule_once id c) = (refl, refl)
  perform-Same w (schedule_periodic id c) = (refl, refl)
  perform-Same w (cancel_timer id) = (refl, refl)

  perform_all-Same : (calls : List (CtxCall C)) (w : Runner C R S J) → Same w (perform_all calls w)
  unfolding perform_all
  perform_all-Same [] w = (refl, refl)
  perform_all-Same (c ∷ calls) w =
      Same-trans w (perform w c) (perform_all calls (perform w c)) (perform-Same w c)
        (perform_all-Same calls (perform w c))

module _ {C R E S J : Type 0} (g : Wiring C R E S J) where
  run_step-Silent : (a : Attempt C (Unit {0})) (w : Runner C R S J) → Silent w (run_step g a w)
  unfolding run_step
  run_step-Silent a w = go a.outcome
    where
      go :
          (o : Settled (Unit {0}))
          → Silent w (elim o [
            | resolved _ ↦ finished (perform_all a.calls w)
            | rejected m ↦ crashed (Failure.threw m) (perform_all a.calls w)
          ])
      go (resolved _) = perform_all-Same a.calls w
      go (rejected m) = perform_all-Same a.calls w

  after_persist-Silent :
      (es : List E) (w : Runner C R S J) (r : Persisted × Journal.Journal J)
      → Silent w (after_persist g es w r)
  unfolding after_persist publish auto_snapshot apply_events
  after_persist-Silent es w (persisted n, j) =
      if_elim (λ (v : Runner C R S J). Same w v) _ _ _ (refl, refl) (refl, refl)
  after_persist-Silent es w (Journal.duplicate_sequence_nr n, j) = (refl, refl)

  abbrev Process : Type 0
  Process = C → Option Caller → Runner C R S J → Ran (Runner C R S J)

  execute_effect-Answers :
      (p : Process) (e : Eff C R E) (caller : Caller) (value : Option R) (o w : Runner C R S J)
      → Same o w
      → ending e ≡ some value
      → Answers o caller value (execute_effect g p e (some caller) w)
  unfolding execute_effect answer take_snapshot persist_step
  execute_effect-Answers p (persist_then es rest) caller value o w h k =
      Answers-and_then o caller value (persist_step g es w)
        (λ w'. execute_effect g p rest (some caller) w')
        (Silent-from o w (persist_step g es w) h (after_persist-Silent es w _))
        (λ w' h'. execute_effect-Answers p rest caller value o w' h' k)
  execute_effect-Answers p (run_then a rest) caller value o w h k =
      Answers-and_then o caller value (run_step g a w)
        (λ w'. execute_effect g p rest (some caller) w')
        (Silent-from o w (run_step g a w) h (run_step-Silent a w))
        (λ w' h'. execute_effect-Answers p rest caller value o w' h' k)
  execute_effect-Answers p (snapshot_then rest) caller value o w h k =
      execute_effect-Answers p rest caller value o (take_snapshot g w) h k
  execute_effect-Answers p (reply_with v) caller value o w h k = cc
  execute_effect-Answers p done_now caller value o w h k = cc
  execute_effect-Answers p (deferred_with d) caller value o w h k = cc
  execute_effect-Answers p stop_now caller value o w h k = cc
  execute_effect-Answers p stash_now caller value o w h k = cc
  execute_effect-Answers p (unstash_then rest) caller value o w h k = cc

  interpret-Answers :
      (p : Process) (c : C) (e : Eff C R E) (caller : Caller) (value : Option R)
      (o w : Runner C R S J)
      → Same o w
      → ending e ≡ some value
      → Answers o caller value (interpret g p c e (some caller) w)
  unfolding interpret
  interpret-Answers p c stash_now caller value o w h k = cc
  interpret-Answers p c e caller value o w h k = execute_effect-Answers p e caller value o w h k

  process_command-Answers :
      (fuel : ℕ) (c : C) (e : Eff C R E) (caller : Caller) (value : Option R) (w : Runner C R S J)
      → (g.aggregate.decide w.entity.state c).outcome ≡ resolved e
      → ending e ≡ some value
      → Answers w caller value (process_command g (suc fuel) c (some caller) w)
  unfolding process_command
  process_command-Answers fuel c e caller value w d k =
      let calls = (g.aggregate.decide w.entity.state c).calls in
      rw (d, process_command)
        (interpret-Answers (process_command g fuel) c e caller value w (perform_all calls w)
          (perform_all-Same calls w) k)

  -- How an ask is answered.
  abbrev pub AskedOnce : Runner C R S J → ℕ → Option R → Ran (Runner C R S J) → Type 0
  AskedOnce w id value (finished w') =
      w'.answers ≡ w.answers ++ (id, replied value w'.entity.sequence_nr w.entity.sequence_nr) ∷ []
  AskedOnce w id value (crashed x w') =
      w'.answers
      ≡ (w.answers ++ (id, failed x) ∷ []) ++ all_failed (entity_crashed x) (asks_in w.mailbox)
  AskedOnce w id value out_of_fuel = ⊥

  conclude-AskedOnce :
      (w : Runner C R S J) (id : ℕ) (value : Option R) (r : Ran (Runner C R S J))
      → Answers w (record { ask_id = id; pre_sequence_nr = w.entity.sequence_nr }) value r
      → AskedOnce w id value (conclude (some id) r)
  unfolding conclude terminate
  conclude-AskedOnce w id value (finished w') h = h
  conclude-AskedOnce w id value (crashed x w') h =
      rw (h.0, reject_queued-asks {R = R} (entity_crashed x) w'.mailbox, h.1) refl
  conclude-AskedOnce w id value out_of_fuel h = h

  -- An ask whose handler gives an effect that writes, runs and takes snapshots and ends in `Reply` or
  -- `Done` is answered exactly once. If all of it succeeds, the answer is that value, with the
  -- sequence numbers behind and before the writes, and nobody else is answered. If a write or a side
  -- effect fails, the answer is that failure, and behind it each ask that was in the mailbox is
  -- answered once, in the order of the mailbox, with the crash as its reason, and nobody else.
  pub ask_answered_once :
      (c : C) (id : ℕ) (e : Eff C R E) (value : Option R) (w : Runner C R S J)
      → (g.aggregate.decide w.entity.state c).outcome ≡ resolved e
      → ending e ≡ some value
      → AskedOnce w id value (handle_message g (ask c id) w)
  unfolding handle_message
  ask_answered_once c id e value w d k =
      conclude-AskedOnce w id value _ (process_command-Answers _ c e _ value w d k)
