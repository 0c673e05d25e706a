-- ===== src/Entity/Induction.antt =====
-- One rule for the invariants of a runner: what the writes of the journal keep, and what does not
-- depend on the mailbox, the timers, the answers and the stash, holds after every message.
use teob_ts.Common.{
  ℕ, zero, suc, Option, none, some, Bool, List, [], ◌∷◌, inl, inr, if_elim, Option-cases,
}
use teob_ts.Common.Maps.{Map}
use teob_ts.Effect.{
  persist_then, run_then, reply_with, deferred_with, snapshot_then, stop_now, stash_now,
  unstash_then, done_now,
}
use teob_ts.Entity.Types.{
  Failure, CtxCall, tell_self, schedule_once, schedule_periodic, cancel_timer, Settled, resolved,
  rejected, Attempt, Eff, Wiring, Caller, Message, tell, ask, timer_fired, stop, Answer,
  StashedEntry, EntityState, Waiting, Timer, Runner, Ran, finished, crashed, out_of_fuel, and_then,
}
use teob_ts.Entity.Execute.{
  perform, perform_all, answer, await_deferred, completion_of, stash_entry, take_stash,
  replay_stash, take_snapshot, persist_step, run_step, execute_effect, interpret, process_command,
}
use teob_ts.Entity.Loop.{conclude, handle_message, fuel_for, take_first, turn, start_with}

-- `P` holds of the runner that is left, whether the work finished or crashed.
abbrev pub Holds : {W : Type 0} → (W → Type 0) → Ran W → Type 0
Holds P (finished w) = P w
Holds P (crashed e w) = P w
Holds P out_of_fuel = Unit

pub Holds-and_then :
    {W : Type 0} (P : W → Type 0) (r : Ran W) (f : W → Ran W)
    → Holds P r
    → ((w : W) → P w → Holds P (f w))
    → Holds P (and_then r f)
Holds-and_then P (finished w) f h k = k w h
Holds-and_then P (crashed e w) f h k = h
Holds-and_then P out_of_fuel f h k = tt

module _ {C R E S J : Type 0} (g : Wiring C R E S J) where
  pub record Keeps (P : Runner C R S J → Type 0) : Type 0 where
    pub outer :
        (w : Runner C R S J) (mailbox : List (Message C)) (timers : Map (Timer C))
        (waiting : List Waiting) (completions : List (ℕ × R)) (answers : List (ℕ × Answer R))
        (clock : ℕ) (terminated : Bool)
        → P w
        → P (record w {
          mailbox = mailbox;
          timers = timers;
          waiting = waiting;
          completions = completions;
          answers = answers;
          clock = clock;
          terminated = terminated;
        })
    pub stashed :
        (w : Runner C R S J) (stashed : List (StashedEntry C))
        → P w
        → P (record w { entity = record w.entity { stashed = stashed } })
    pub persists : (es : List E) (w : Runner C R S J) → P w → Holds P (persist_step g es w)
    pub snapshots : (w : Runner C R S J) → P w → P (take_snapshot g w)

  abbrev Process : Type 0
  Process = C → Option Caller → Runner C R S J → Ran (Runner C R S J)

  module _ (P : Runner C R S J → Type 0) (k : Keeps P) where
    perform-keeps : (w : Runner C R S J) (c : CtxCall C) → P w → P (perform w c)
    unfolding perform
    perform-keeps w (tell_self c) h = k.outer w _ _ _ _ _ _ _ h
    perform-keeps w (schedule_once id c) h = k.outer w _ _ _ _ _ _ _ h
    perform-keeps w (schedule_periodic id c) h = k.outer w _ _ _ _ _ _ _ h
    perform-keeps w (cancel_timer id) h = k.outer w _ _ _ _ _ _ _ h

    perform_all-keeps :
        (calls : List (CtxCall C)) (w : Runner C R S J) → P w → P (perform_all calls w)
    unfolding perform_all
    perform_all-keeps [] w h = h
    perform_all-keeps (c ∷ calls) w h = perform_all-keeps calls (perform w c) (perform-keeps w c h)

    answer-keeps : (r : Option Caller) (v : Option R) (w : Runner C R S J) → P w → P (answer r v w)
    unfolding answer
    answer-keeps none v w h = h
    answer-keeps (some c) v w h = k.outer w _ _ _ _ _ _ _ h

    await_deferred-keeps :
        (d : ℕ) (r : Option Caller) (o : Option R) (w : Runner C R S J)
        → P w
        → P (await_deferred d r o w)
    unfolding await_deferred
    await_deferred-keeps d r none w h = k.outer w _ _ _ _ _ _ _ h
    await_deferred-keeps d r (some v) w h = answer-keeps r (some v) w h

    run_step-keeps :
        (a : Attempt C (Unit {0})) (w : Runner C R S J) → P w → Holds P (run_step g a w)
    unfolding run_step
    run_step-keeps a w h = go a.outcome
      where
        go :
            (o : Settled (Unit {0}))
            → Holds P (elim o [
              | resolved _ ↦ finished (perform_all a.calls w)
              | rejected m ↦ crashed (Failure.threw m) (perform_all a.calls w)
            ])
        go (resolved _) = perform_all-keeps a.calls w h
        go (rejected m) = perform_all-keeps a.calls w h

    replay_stash-keeps :
        (p : Process)
        → ((c : C) (r : Option Caller) (w : Runner C R S J) → P w → Holds P (p c r w))
        → (entries : List (StashedEntry C)) (w : Runner C R S J) → P w
        → Holds P (replay_stash p entries w)
    unfolding replay_stash
    replay_stash-keeps p ph [] w h = h
    replay_stash-keeps p ph (e ∷ rest) w h =
        Holds-and_then P (p e.command e.reply_to w) (λ w'. replay_stash p rest w')
          (ph e.command e.reply_to w h) (λ w' h'. replay_stash-keeps p ph rest w' h')

    execute_effect-keeps :
        (p : Process)
        → ((c : C) (r : Option Caller) (w : Runner C R S J) → P w → Holds P (p c r w))
        → (e : Eff C R E) (r : Option Caller) (w : Runner C R S J) → P w
        → Holds P (execute_effect g p e r w)
    unfolding execute_effect
    execute_effect-keeps p ph (persist_then es rest) r w h =
        Holds-and_then P (persist_step g es w) (λ w'. execute_effect g p rest r w')
          (k.persists es w h) (λ w' h'. execute_effect-keeps p ph rest r w' h')
    execute_effect-keeps p ph (run_then a rest) r w h =
        Holds-and_then P (run_step g a w) (λ w'. execute_effect g p rest r w')
          (run_step-keeps a w h) (λ w' h'. execute_effect-keeps p ph rest r w' h')
    execute_effect-keeps p ph (reply_with v) r w h = answer-keeps r (some v) w h
    execute_effect-keeps p ph (deferred_with d) r w h =
        await_deferred-keeps d r (completion_of d w.completions) w h
    execute_effect-keeps p ph (snapshot_then rest) r w h =
        execute_effect-keeps p ph rest r (take_snapshot g w) (k.snapshots w h)
    execute_effect-keeps p ph stop_now r w h = k.outer w _ _ _ _ _ _ _ h
    execute_effect-keeps p ph stash_now r w h = h
    execute_effect-keeps p ph (unstash_then rest) r w h =
        Holds-and_then P (replay_stash p w.entity.stashed (take_stash w))
          (λ w'. execute_effect g p rest r w')
          (replay_stash-keeps p ph w.entity.stashed (take_stash w) (k.stashed w [] h))
          (λ w' h'. execute_effect-keeps p ph rest r w' h')
    execute_effect-keeps p ph done_now r w h = answer-keeps r none w h

    interpret-keeps :
        (p : Process)
        → ((c : C) (r : Option Caller) (w : Runner C R S J) → P w → Holds P (p c r w))
        → (c : C) (e : Eff C R E) (r : Option Caller) (w : Runner C R S J) → P w
        → Holds P (interpret g p c e r w)
    unfolding interpret stash_entry
    interpret-keeps p ph c stash_now r w h = k.stashed w _ h
    interpret-keeps p ph c e r w h = execute_effect-keeps p ph e r w h

    -- Every command keeps the invariant, at any depth of replay, finished or crashed.
    pub process_command-keeps :
        (fuel : ℕ) (c : C) (r : Option Caller) (w : Runner C R S J)
        → P w
        → Holds P (process_command g fuel c r w)
    unfolding process_command
    process_command-keeps zero c r w h = tt
    process_command-keeps (suc fuel) c r w h =
        go attempt.outcome (perform_all-keeps attempt.calls w h) (λ e w' h'.
          interpret-keeps (process_command g fuel) (process_command-keeps fuel) c e r w' h')
      where
        attempt : Attempt C (Eff C R E)
        attempt = g.aggregate.decide w.entity.state c

        go :
            (o : Settled (Eff C R E))
            → P (perform_all attempt.calls w)
            → ((e : Eff C R E) (w' : Runner C R S J)
                → P w'
                → Holds P (interpret g (process_command g fuel) c e r w'))
            → Holds P (elim o [
              | rejected m ↦ crashed (Failure.threw m) (perform_all attempt.calls w)
              | resolved e ↦
                  interpret g (process_command g fuel) c e r (perform_all attempt.calls w)
            ])
        go (rejected m) done next = done
        go (resolved e) done next = next e (perform_all attempt.calls w) done

    conclude-keeps :
        (asker : Option ℕ) (r : Ran (Runner C R S J)) → Holds P r → Holds P (conclude asker r)
    unfolding conclude
    conclude-keeps asker (finished w) h = h
    conclude-keeps none (crashed e w) h = k.outer w _ _ _ _ _ _ _ h
    conclude-keeps (some id) (crashed e w) h = k.outer w _ _ _ _ _ _ _ h
    conclude-keeps asker out_of_fuel h = tt

    -- So does every message.
    pub handle_message-keeps :
        (m : Message C) (w : Runner C R S J) → P w → Holds P (handle_message g m w)
    unfolding handle_message
    handle_message-keeps (tell c) w h =
        conclude-keeps none _ (process_command-keeps (fuel_for g w) c none w h)
    handle_message-keeps (ask c id) w h =
        conclude-keeps (some id) _ (process_command-keeps (fuel_for g w) c _ w h)
    handle_message-keeps (timer_fired t c) w h =
        conclude-keeps none _ (process_command-keeps (fuel_for g w) c none w h)
    handle_message-keeps stop w h = k.outer w _ _ _ _ _ _ _ h

    take_first-keeps :
        (ms : List (Message C)) (w : Runner C R S J) → P w → Holds P (take_first g ms w)
    unfolding take_first
    take_first-keeps [] w h = h
    take_first-keeps (m ∷ rest) w h =
        handle_message-keeps m (record w { mailbox = rest }) (k.outer w _ _ _ _ _ _ _ h)

    pub turn-keeps : (w : Runner C R S J) → P w → Holds P (turn g w)
    unfolding turn
    turn-keeps w h = if_elim (Holds P) w.terminated _ _ h (take_first-keeps w.mailbox w h)

    -- A recovery that establishes the invariant leaves it to the whole start of the runner.
    pub start_with-keeps :
        (s : EntityState C S) (w : Runner C R S J)
        → P (record w { entity = s })
        → Holds P (start_with g (some s) w)
    unfolding start_with
    start_with-keeps s w h = elim (Option-cases g.aggregate.on_recovery_complete) [
      | inl e ↦ rw (e, start_with) h
      | inr (f, e) ↦ rw (e, start_with) (conclude-keeps none _ (run_step-keeps (f s.state) _ h))
    ]
