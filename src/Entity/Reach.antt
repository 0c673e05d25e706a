-- ===== src/Entity/Reach.antt =====
-- The life of an entity as a step relation: messages, what the outside does between them, crashes
-- and restarts; and what holds of every runner that such steps can reach.
use teob_ts.Common.{
  Option, none, ℕ, String, some, [], ◌≡◌, refl, sym, ap, ◌∙◌, inl, inr, Option-cases, if_elim,
  length,
}
use mathlib.Core.Path.{subst}
use teob_ts.Common.Maps.{get}
use teob_ts.Codec.{RoundTrips}
use teob_ts.Journal.{empty, stored_at, load_snapshot}
use teob_ts.Entity.Types.{
  Failure, Wiring, Message, timer_fired, EntityState, Runner, finished, crashed,
}
use teob_ts.Entity.Execute.{offer, completion_of}
use teob_ts.Entity.Loop.{
  turn, fire_timer, complete_deferred, complete_first, time_out_deferred, recover, start,
  start_with, create_entity_runner,
}
use teob_ts.Entity.Induction.{Holds, Keeps, turn-keeps, start_with-keeps}
use teob_ts.Entity.Recovery.{Durable, recover-Durable, recovered, entity_key}
use teob_ts.Entity.Durability.{keeps_Durable}

module _ {C R E S J : Type 0} (g : Wiring C R E S J) where
  pub data Step : Runner C R S J → Runner C R S J → Type 0 where
    -- a message arrives from another entity or a caller
    arrives : (m : Message C) (w : Runner C R S J) → Step w (offer m w)
    timer_fires : (id : String) (w : Runner C R S J) → Step w (fire_timer id w)
    completes : (d : ℕ) (v : R) (w : Runner C R S J) → Step w (complete_deferred d v w)
    times_out : (n : ℕ) (w : Runner C R S J) → Step w (time_out_deferred n w)
    clock_moves : (t : ℕ) (w : Runner C R S J) → Step w (record w { clock = t })
    -- one turn of the message loop
    turns : {w w' : Runner C R S J} → turn g w ≡ finished w' → Step w w'
    crashes : {w w' : Runner C R S J} {e : Failure} → turn g w ≡ crashed e w' → Step w w'
    -- a fresh incarnation on the same journal, whatever state the old one was in
    restarts :
        {w' : Runner C R S J} (w : Runner C R S J) (minted clock : ℕ)
        → start g (create_entity_runner g w.journal minted clock) ≡ finished w'
        → Step w w'

  pub data Reach (w : Runner C R S J) : Runner C R S J → Type 0 where
    here : Reach w w
    next : {u v : Runner C R S J} → Reach w u → Step u v → Reach w v

  -- The events that the journal holds for the entity.
  abbrev pub stored_count : Runner C R S J → ℕ
  stored_count w = length (stored_at w.journal (entity_key g))

  -- The stored events at the start of the incarnation: behind a restart, those of that moment.
  abbrev pub begun_after : {w w' : Runner C R S J} → Step w w' → ℕ → ℕ
  begun_after (arrives m w) n = n
  begun_after (timer_fires id w) n = n
  begun_after (completes d v w) n = n
  begun_after (times_out k w) n = n
  begun_after (clock_moves t w) n = n
  begun_after (turns e) n = n
  begun_after (crashes e) n = n
  begun_after (restarts {w' = w'} w minted clock e) n = stored_count w'

  abbrev pub begun : {w w' : Runner C R S J} → Reach w w' → ℕ
  begun {w = w} here = stored_count w
  begun (next r st) = begun_after st (begun r)

  -- An invariant that may name the stored events at the start of the incarnation: the runner's work
  -- keeps it, and a restart establishes it again.
  module _ (P : ℕ → Runner C R S J → Type 0) (k : (n : ℕ) → Keeps g (P n))
      (restarted : (n : ℕ) (w w' : Runner C R S J) (minted clock : ℕ)
        → start g (create_entity_runner g w.journal minted clock) ≡ finished w'
        → P n w
        → P (stored_count w') w') where
    fire_timer-keeps : (n : ℕ) (id : String) (w : Runner C R S J) → P n w → P n (fire_timer id w)
    unfolding fire_timer
    fire_timer-keeps n id w h = elim (Option-cases (get w.timers id)) [
      | inl e ↦ rw (e, fire_timer) h
      | inr (t, e) ↦
          rw (e, fire_timer)
            (if_elim (λ v. P n (offer (timer_fired id t.command) v)) t.periodic _ _
              ((k n).outer w _ _ _ _ _ _ _ h) ((k n).outer w _ _ _ _ _ _ _ h))
    ]

    complete_first-keeps :
        (n d : ℕ) (v : R) (o : Option R) (w : Runner C R S J) → P n w → P n (complete_first d v o w)
    unfolding complete_first
    complete_first-keeps n d v none w h = (k n).outer w _ _ _ _ _ _ _ h
    complete_first-keeps n d v (some _) w h = h

    Step-keeps : (n : ℕ) {w w' : Runner C R S J} (st : Step w w') → P n w → P (begun_after st n) w'
    unfolding offer complete_deferred time_out_deferred
    Step-keeps n (arrives m w) h = (k n).outer w _ _ _ _ _ _ _ h
    Step-keeps n (timer_fires id w) h = fire_timer-keeps n id w h
    Step-keeps n (completes d v w) h =
        complete_first-keeps n d v (completion_of d w.completions) w h
    Step-keeps n (times_out m w) h = (k n).outer w _ _ _ _ _ _ _ h
    Step-keeps n (clock_moves t w) h = (k n).outer w _ _ _ _ _ _ _ h
    Step-keeps n (turns {w = w} e) h = subst (Holds (P n)) e (turn-keeps g (P n) (k n) w h)
    Step-keeps n (crashes {w = w} e) h = subst (Holds (P n)) e (turn-keeps g (P n) (k n) w h)
    Step-keeps n (restarts {w' = w'} w minted clock e) h = restarted n w w' minted clock e h

    pub Reach-keeps_since :
        {w w' : Runner C R S J} (r : Reach w w') → P (stored_count w) w → P (begun r) w'
    Reach-keeps_since here h = h
    Reach-keeps_since (next r st) h = Step-keeps (begun r) st (Reach-keeps_since r h)

  -- An invariant that the runner's work keeps, and that a recovery establishes again, holds of all
  -- that can be reached from a runner which has it.
  module _ (P : Runner C R S J → Type 0) (k : Keeps g P)
      (again : (w : Runner C R S J) (minted clock : ℕ)
        → P w
        → (s : EntityState C S) × (recover g w.journal ≡ some s)
          × P (record (create_entity_runner g w.journal minted clock) { entity = s })) where
    pub restart-keeps :
        (w : Runner C R S J) (minted clock : ℕ)
        → P w
        → (w' : Runner C R S J)
        → start g (create_entity_runner g w.journal minted clock) ≡ finished w'
        → P w'
    unfolding start create_entity_runner
    restart-keeps w minted clock h w' e =
        let (s, found, kept) = again w minted clock h in
        let fresh = create_entity_runner g w.journal minted clock in
        subst (Holds P) (ap (λ r. start_with g r fresh) (sym found) ∙ e)
          (start_with-keeps g P k s fresh kept)

    pub Reach-keeps : {w w' : Runner C R S J} → Reach w w' → P w → P w'
    Reach-keeps r h =
        Reach-keeps_since (λ _. P) (λ _. k)
          (λ n w w' minted clock e h. restart-keeps w minted clock h w' e) r h

  pub fresh-Durable : (minted clock : ℕ) → Durable g (create_entity_runner g empty minted clock)
  unfolding create_entity_runner stored_at load_snapshot get
  fresh-Durable minted clock = record {
    history = [];
    stream = tt;
    counted = refl;
    current = refl;
    snapshot = tt;
  }

  module _ (events_ok : RoundTrips g.event_codec) (states_ok : RoundTrips g.state_codec) where
    pub restart-Durable :
        (w : Runner C R S J) (minted clock : ℕ)
        → Durable g w
        → Durable g
            (record (create_entity_runner g w.journal minted clock) { entity = recovered g w })
    unfolding create_entity_runner
    restart-Durable w minted clock d = record {
      history = d.history;
      stream = d.stream;
      counted = d.counted;
      current = d.current;
      snapshot = d.snapshot;
    }

    -- With codecs that round-trip, and from an empty journal to which nothing else writes: however an
    -- entity lives, through messages, crashes, timers and restarts, a recovery from its journal
    -- succeeds and gives the state and the sequence number that it has at that moment.
    pub recover-Reach :
        (minted clock : ℕ) (w : Runner C R S J)
        → Reach (create_entity_runner g empty minted clock) w
        → recover g w.journal ≡ some (recovered g w)
    recover-Reach minted clock w r = recover-Durable g events_ok w (
        Reach-keeps (Durable g) (keeps_Durable g states_ok)
          (λ v minted clock d.
            (recovered g v, recover-Durable g events_ok v d, restart-Durable v minted clock d))
          r (fresh-Durable minted clock))
