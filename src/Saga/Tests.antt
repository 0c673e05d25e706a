-- ===== src/Saga/Tests.antt =====
-- A saga that reacts to numbers: an event is its own tag, and the world counts the calls.
use teob_ts.Common.{
  ℕ, suc, String, Option, none, some, Bool, true, false, [], ◌∷◌, ◌≡◌, refl, arith, ltb, ◌==◌,
  if◌then◌else◌,
}
use teob_ts.Codec.{Codec, object_codec}
use teob_ts.Common.Maps.{get, set}
use teob_ts.Journal.{Journal, empty, persist_events, all_events}
use teob_ts.Saga.{
  matches, SagaDefinition, SagaStep, StatefulSagaDefinition, empty_saga_store, run_saga,
  run_stateful_saga, get_step, get_offset, run_tailing_saga,
}
use teob_ts.Saga.Tail.{Tails, Tailed, start, receives, finishes, receive, finish}
use teob_ts.Saga.Order.{Climbs, own_steps, Tailed-Climbs_from}
use teob_ts.Saga.Retry.{two_records, run_tailing_saga_failed}

abbrev tag : ℕ → Option String
tag n = if n == 0 then none else some (if n == 1 then "placed" else "paid")

-- Every call is counted; a call for the entity `bad` throws.
abbrev calls : ℕ → String → ℕ → Bool × ℕ
calls event entity_id w = (ltb event 2, suc w)

abbrev orders : SagaDefinition ℕ ℕ
orders = record { name = "s"; on = "paid"; from = "order"; execute = calls }

run_tailing_saga_failed_example :
    ((run_tailing_saga tag orders (two_records "7" 1 2 2 1) (0, empty_saga_store)).0 ≡ 1)
    × (run_tailing_saga tag orders
          (two_records "7" 1 2 2 1)
          (run_tailing_saga tag orders (two_records "7" 1 2 2 1) (0, empty_saga_store))
        ≡ run_tailing_saga tag orders (two_records "7" 1 2 2 1) (0, empty_saga_store))
unfolding get_offset get matches
run_tailing_saga_failed_example =
    run_tailing_saga_failed tag orders "7" 1 2 2 1 0 empty_saga_store (omega arith) (omega arith)
      refl refl refl

abbrev placed : SagaStep ℕ ℕ
placed = record { on = "placed"; from = "order"; execute = calls }

abbrev two_steps : StatefulSagaDefinition ℕ ℕ
two_steps = record {
  name = "t";
  steps = placed ∷ placed ∷ [];
  compensate = λ index event entity_id w. (true, w);
}

abbrev print : ℕ → String
print n = if n == 0 then "0" else "1"

abbrev plain : Codec ℕ ℕ
unfolding object_codec
plain = object_codec "e"

abbrev journal : Journal ℕ
unfolding persist_events
journal = (persist_events plain "order" "7" (1 ∷ 2 ∷ []) 0 [] empty).1

-- Both steps react to the first event of the order, one after the other.
both_steps : (run_stateful_saga tag print two_steps plain journal (0, empty_saga_store)).1 ≡ 2
unfolding run_stateful_saga all_events persist_events get set plain
both_steps = refl

-- The handler of an event throws, so the scan ends there and its offset stays.
stops : (run_saga tag orders plain journal (0, empty_saga_store)).0 ≡ false
unfolding run_saga all_events persist_events get set plain
stops = refl

abbrev idle : Tails ℕ ℕ
idle = record { store = empty_saga_store; world = 0; executing = λ k. none }

abbrev taken : Tails ℕ ℕ
unfolding finish receive
taken =
    finish tag print two_steps placed 0 ("7", 1, 1)
      (receive tag print two_steps placed 0 ("7", 1, 1) idle)

one_taken : Tailed tag print two_steps idle ((0, "7") ∷ []) taken
unfolding finish receive get set
one_taken = finishes 0 placed ("7", 1, 1) (receives 0 placed ("7", 1, 1) start refl refl) refl refl

Tailed-Climbs_from_example :
    Climbs
      (get_step "t" "7" empty_saga_store)
      (own_steps "7" ((0, "7") ∷ []))
      (get_step "t" "7" taken.store)
Tailed-Climbs_from_example =
    Tailed-Climbs_from tag print two_steps idle taken ((0, "7") ∷ []) "7" (λ k. refl) one_taken
