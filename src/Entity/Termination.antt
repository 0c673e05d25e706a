-- ===== src/Entity/Termination.antt =====
-- `Unstash` replays commands, which may unstash again: the replays end, however the handlers decide.
use mathlib.Core.Path.{subst}
use teob_ts.Common.{
  ℕ, zero, suc, ◌+◌, ◌≤◌, ◌<◌, Option, none, some, List, [], ◌∷◌, ◌≡◌, refl, ◌∙◌, ◌≢◌, arith,
  length, length-append, if_elim,
}
use teob_ts.Effect.{
  persist_then, run_then, reply_with, deferred_with, snapshot_then, stop_now, stash_now,
  unstash_then, done_now,
}
use teob_ts.Journal
use teob_ts.Journal.{Persisted, persisted}
use teob_ts.Entity.Types.{
  Failure, CtxCall, tell_self, schedule_once, schedule_periodic, cancel_timer, Settled, resolved,
  rejected, Attempt, Eff, Wiring, Caller, Message, tell, ask, timer_fired, stop, StashedEntry,
  Runner, Ran, finished, crashed, out_of_fuel, and_then,
}
use teob_ts.Entity.Execute.{
  perform, perform_all, answer, await_deferred, completion_of, stash_entry, take_stash,
  replay_stash, take_snapshot, auto_snapshot, apply_events, after_persist, persist_step, run_step,
  execute_effect, interpret, process_command,
}
use teob_ts.Entity.Loop.{conclude, handle_message, fuel_for}

-- The work ends, and if it finishes at most `n` entries are stashed.
abbrev Ends : {C R S J : Type 0} → ℕ → Ran (Runner C R S J) → Type 0
Ends n (finished w) = length w.entity.stashed ≤ n
Ends n (crashed e w) = Unit
Ends n out_of_fuel = ⊥

module _ {C R S J : Type 0} where
  Ends-and_then :
      (n m : ℕ) (r : Ran (Runner C R S J)) (f : Runner C R S J → Ran (Runner C R S J))
      → Ends n r
      → ((w : Runner C R S J) → length w.entity.stashed ≤ n → Ends m (f w))
      → Ends m (and_then r f)
  Ends-and_then n m (finished w) f h k = k w h
  Ends-and_then n m (crashed e w) f h k = tt
  Ends-and_then n m out_of_fuel f h k = h

  Ends-le : (n m : ℕ) (r : Ran (Runner C R S J)) → n ≤ m → Ends n r → Ends m r
  Ends-le n m (finished w) h e = omega arith
  Ends-le n m (crashed x w) h e = tt
  Ends-le n m out_of_fuel h e = e

  stashed-perform :
      (w : Runner C R S J) (c : CtxCall C) → (perform w c).entity.stashed ≡ w.entity.stashed
  unfolding perform
  stashed-perform w (tell_self c) = refl
  stashed-perform w (schedule_once id c) = refl
  stashed-perform w (schedule_periodic id c) = refl
  stashed-perform w (cancel_timer id) = refl

  stashed-perform_all :
      (calls : List (CtxCall C)) (w : Runner C R S J)
      → (perform_all calls w).entity.stashed ≡ w.entity.stashed
  unfolding perform_all
  stashed-perform_all [] w = refl
  stashed-perform_all (c ∷ calls) w = stashed-perform_all calls (perform w c) ∙ stashed-perform w c

  stashed-answer :
      (r : Option Caller) (v : Option R) (w : Runner C R S J)
      → (answer r v w).entity.stashed ≡ w.entity.stashed
  unfolding answer
  stashed-answer none v w = refl
  stashed-answer (some c) v w = refl

  stashed-await_deferred :
      (d : ℕ) (r : Option Caller) (o : Option R) (w : Runner C R S J)
      → (await_deferred d r o w).entity.stashed ≡ w.entity.stashed
  unfolding await_deferred
  stashed-await_deferred d r none w = refl
  stashed-await_deferred d r (some v) w = stashed-answer r (some v) w

  -- A replay of `entries` whose calls end adds at most one entry for each.
  replay_stash-Ends :
      (f n : ℕ) (p : C → Option Caller → Runner C R S J → Ran (Runner C R S J))
      → ((c : C) (r : Option Caller) (w : Runner C R S J)
          → length w.entity.stashed < f
          → Ends (suc (length w.entity.stashed)) (p c r w))
      → n ≤ f
      → (entries : List (StashedEntry C)) (w : Runner C R S J)
      → length w.entity.stashed + length entries ≤ n
      → Ends n (replay_stash p entries w)
  unfolding replay_stash
  replay_stash-Ends f n p ph hn [] w h = omega arith
  replay_stash-Ends f n p ph hn (e ∷ rest) w h =
      Ends-and_then (suc (length w.entity.stashed)) n (p e.command e.reply_to w)
        (λ w'. replay_stash p rest w') (ph e.command e.reply_to w (omega arith))
        (λ w' h'. replay_stash-Ends f n p ph hn rest w' (omega arith))

module _ {C R E S J : Type 0} (g : Wiring C R E S J) where
  run_step-Ends :
      (a : Attempt C (Unit {0})) (w : Runner C R S J)
      → Ends (length w.entity.stashed) (run_step g a w)
  unfolding run_step
  run_step-Ends a w = go a.outcome
    where
      go :
          (o : Settled (Unit {0}))
          → Ends (length w.entity.stashed) (elim o [
            | resolved _ ↦ finished (perform_all a.calls w)
            | rejected m ↦ crashed (Failure.threw m) (perform_all a.calls w)
          ])
      go (resolved _) = rw (stashed-perform_all a.calls w) (omega arith)
      go (rejected m) = tt

  stashed-auto_snapshot :
      (w : Runner C R S J) → (auto_snapshot g w).entity.stashed ≡ w.entity.stashed
  unfolding auto_snapshot
  stashed-auto_snapshot w =
      if_elim (λ (v : Runner C R S J). v.entity.stashed ≡ w.entity.stashed) _ _ _ refl refl

  after_persist-Ends :
      (es : List E) (w : Runner C R S J) (r : Persisted × Journal.Journal J)
      → Ends (length w.entity.stashed) (after_persist g es w r)
  unfolding after_persist
  after_persist-Ends es w (persisted n, j) =
      rw (stashed-auto_snapshot (apply_events g es n j w)) (omega arith)
  after_persist-Ends es w (Journal.duplicate_sequence_nr n, j) = tt

  persist_step-Ends :
      (es : List E) (w : Runner C R S J) → Ends (length w.entity.stashed) (persist_step g es w)
  unfolding persist_step
  persist_step-Ends es w = after_persist-Ends es w _

  abbrev Process : Type 0
  Process = C → Option Caller → Runner C R S J → Ran (Runner C R S J)

  abbrev EndsBelow : ℕ → Process → Type 0
  EndsBelow f p =
      (c : C) (r : Option Caller) (w : Runner C R S J)
      → length w.entity.stashed < f
      → Ends (suc (length w.entity.stashed)) (p c r w)

  -- An effect adds no entry to the stash.
  execute_effect-Ends :
      (f : ℕ) (p : Process)
      → EndsBelow f p
      → (e : Eff C R E) (r : Option Caller) (n : ℕ) (w : Runner C R S J)
      → length w.entity.stashed ≤ n
      → n ≤ f
      → Ends n (execute_effect g p e r w)
  unfolding execute_effect
  execute_effect-Ends f p ph (persist_then es rest) r n w h hf =
      Ends-and_then (length w.entity.stashed) n (persist_step g es w)
        (λ w'. execute_effect g p rest r w') (persist_step-Ends es w)
        (λ w' h'. execute_effect-Ends f p ph rest r n w' (omega arith) hf)
  execute_effect-Ends f p ph (run_then a rest) r n w h hf =
      Ends-and_then (length w.entity.stashed) n (run_step g a w)
        (λ w'. execute_effect g p rest r w') (run_step-Ends a w)
        (λ w' h'. execute_effect-Ends f p ph rest r n w' (omega arith) hf)
  execute_effect-Ends f p ph (reply_with v) r n w h hf = rw (stashed-answer r (some v) w) h
  execute_effect-Ends f p ph (deferred_with d) r n w h hf =
      rw (stashed-await_deferred d r (completion_of d w.completions) w) h
  execute_effect-Ends f p ph (snapshot_then rest) r n w h hf =
      execute_effect-Ends f p ph rest r n (take_snapshot g w) h hf
  execute_effect-Ends f p ph stop_now r n w h hf = h
  execute_effect-Ends f p ph stash_now r n w h hf = h
  execute_effect-Ends f p ph (unstash_then rest) r n w h hf =
      Ends-and_then n n (replay_stash p w.entity.stashed (take_stash w))
        (λ w'. execute_effect g p rest r w')
        (replay_stash-Ends f n p ph hf w.entity.stashed (take_stash w) (omega arith))
        (λ w' h'. execute_effect-Ends f p ph rest r n w' h' hf)
  execute_effect-Ends f p ph done_now r n w h hf = rw (stashed-answer r none w) h

  interpret-Ends :
      (f : ℕ) (p : Process)
      → EndsBelow f p
      → (c : C) (e : Eff C R E) (r : Option Caller) (w : Runner C R S J)
      → length w.entity.stashed ≤ f
      → Ends (suc (length w.entity.stashed)) (interpret g p c e r w)
  unfolding interpret stash_entry
  interpret-Ends f p ph c stash_now r w h = omega (arith, length-append w.entity.stashed)
  interpret-Ends f p ph c e r w h =
      Ends-le (length w.entity.stashed) _ _ (omega arith)
        (execute_effect-Ends f p ph e r (length w.entity.stashed) w (omega arith) h)

  -- With more fuel than there are stashed entries a command is processed to its end.
  process_command-Ends : (f : ℕ) → EndsBelow f (process_command g f)
  unfolding process_command
  process_command-Ends zero c r w h = absurd (omega arith)
  process_command-Ends (suc f) c r w h = go attempt.outcome (process_command-Ends f)
    where
      attempt : Attempt C (Eff C R E)
      attempt = g.aggregate.decide w.entity.state c

      same : (perform_all attempt.calls w).entity.stashed ≡ w.entity.stashed
      same = stashed-perform_all attempt.calls w

      go :
          (o : Settled (Eff C R E))
          → EndsBelow f (process_command g f)
          → Ends (suc (length w.entity.stashed)) (elim o [
            | rejected m ↦ crashed (Failure.threw m) (perform_all attempt.calls w)
            | resolved e ↦ interpret g (process_command g f) c e r (perform_all attempt.calls w)
          ])
      go (rejected m) ih = tt
      go (resolved e) ih =
          subst
            (λ l.
              Ends (suc (length l))
                (interpret g (process_command g f) c e r (perform_all attempt.calls w)))
            same
            (interpret-Ends f (process_command g f) ih c e r (perform_all attempt.calls w)
              (rw same (omega arith)))

  conclude-ne-out_of_fuel :
      (asker : Option ℕ) (n : ℕ) (r : Ran (Runner C R S J))
      → Ends n r
      → conclude asker r ≢ out_of_fuel
  unfolding conclude
  conclude-ne-out_of_fuel asker n (finished w) h e = cc
  conclude-ne-out_of_fuel none n (crashed x w) h e = cc
  conclude-ne-out_of_fuel (some id) n (crashed x w) h e = cc
  conclude-ne-out_of_fuel asker n out_of_fuel h e = h

  -- The processing of every message ends, at whatever stash and by whatever decisions: `Unstash`
  -- cannot replay for ever, though a replayed command may stash itself and unstash again.
  pub handle_message_total :
      (m : Message C) (w : Runner C R S J) → handle_message g m w ≢ out_of_fuel
  unfolding handle_message
  handle_message_total (tell c) w =
      conclude-ne-out_of_fuel none _ _ (process_command-Ends (fuel_for g w) c none w (omega arith))
  handle_message_total (ask c id) w =
      conclude-ne-out_of_fuel (some id) _ _
        (process_command-Ends (fuel_for g w) c _ w (omega arith))
  handle_message_total (timer_fired t c) w =
      conclude-ne-out_of_fuel none _ _ (process_command-Ends (fuel_for g w) c none w (omega arith))
  handle_message_total stop w = λ e. cc
