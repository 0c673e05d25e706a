-- ===== src/Projection/Tests.antt =====
-- Sums over the events of two orders, at concrete journals.
use teob_ts.Common.{
  ℕ, ◌+◌, ◌≤◌, String, true, none, some, List, [], ◌∷◌, ◌≡◌, refl, arith, ltb, if◌then◌else◌,
  Option,
}
use teob_ts.Common.Maps.{get, set}
use teob_ts.Codec.{Codec, object_codec}
use teob_ts.Journal.{Journal, empty, all_events, persist_events, persistence_key}
use teob_ts.Projection.{
  ProjectionStore, MultiStreamProjection, empty_store, get_view, get_offset, put, clear, subscribe,
}
use teob_ts.Projection.Fold.{run_projection, run_multi_stream_projection, rebuild_projection}
use teob_ts.Projection.Passes.{run_multi_stream_projection_twice}
use teob_ts.Projection.Runner.{
  created, begin_cycle, end_cycle, nudge, IsOwed, nudge-Waits, next, at_first, runs_once, waits,
  here, ends,
}
use teob_ts.Projection.Rebuild.{
  the_projection, rebuild_projection-folded_view, run_projection-incremental, clear_nested,
}

abbrev plain : Codec ℕ ℕ
unfolding object_codec
plain = object_codec "e"

-- The order `7` with two events, then with a third, and the order `8`.
abbrev before : Journal ℕ
unfolding persist_events
before = (persist_events plain "order" "7" (10 ∷ 20 ∷ []) 0 [] empty).1

abbrev after : Journal ℕ
unfolding persist_events
after =
    (persist_events plain "order" "8" (1 ∷ []) 0 []
      (persist_events plain "order" "7" (5 ∷ []) 2 [] before).1).1

abbrev sum : ℕ → ℕ → String → ℕ
sum view event entity_id = view + event

abbrev old : List (String × ℕ × ℕ)
old = ("7", 1, 10) ∷ ("7", 2, 20) ∷ []

abbrev all : List (String × ℕ × ℕ)
all = ("7", 1, 10) ∷ ("7", 2, 20) ∷ ("7", 3, 5) ∷ ("8", 1, 1) ∷ []

before_lists : all_events plain "order" before ≡ some old
unfolding all_events persist_events get set plain
before_lists = refl

after_lists : all_events plain "order" after ≡ some all
unfolding all_events persist_events get set plain
after_lists = refl

-- The view of another projection run, which a rebuild drops.
abbrev stale : ProjectionStore ℕ
unfolding put
stale =
    put "sums" "7" (record { view_id = "7"; view = 99; sequence_nr = 9 })
      (subscribe "sums" "7" empty_store)

rebuild_projection-folded_view_example :
    ((rebuild_projection plain (the_projection "sums" "order" sum 0) after stale).0 ≡ true)
    × (get_view "sums" "7"
          (rebuild_projection plain (the_projection "sums" "order" sum 0) after stale).1
        ≡ some (record { view_id = "7"; view = 35; sequence_nr = 3 }))
    × (get_offset "sums" "order" "7"
          (rebuild_projection plain (the_projection "sums" "order" sum 0) after stale).1
        ≡ 3)
rebuild_projection-folded_view_example =
    rebuild_projection-folded_view plain "sums" "order" sum 0 after all "7" stale after_lists
      (omega arith, (omega arith, (omega arith, tt)))

run_projection-incremental_example :
    (get_view "sums" "7"
        (run_projection plain
          (the_projection "sums" "order" sum 0)
          after
          (run_projection plain (the_projection "sums" "order" sum 0) before empty_store).1).1
      ≡ get_view "sums" "7"
          (run_projection plain (the_projection "sums" "order" sum 0) after empty_store).1)
    × (get_offset "sums" "order" "7"
          (run_projection plain
            (the_projection "sums" "order" sum 0)
            after
            (run_projection plain (the_projection "sums" "order" sum 0) before empty_store).1).1
        ≡ get_offset "sums" "order" "7"
            (run_projection plain (the_projection "sums" "order" sum 0) after empty_store).1)
run_projection-incremental_example =
    run_projection-incremental plain "sums" "order" sum 0 before after old all ((3, 5) ∷ []) "7"
      empty_store before_lists after_lists refl

-- One view over the orders; an event above 100 makes `evolve` throw.
abbrev checked_sum : ℕ → ℕ → String → Option ℕ
checked_sum view event entity_id = if ltb 100 event then none else some (view + event)

abbrev totals : MultiStreamProjection ℕ ℕ
totals = record {
  projection_id = "total";
  sources = record { category = "order"; get_view_id = λ _ _. "all" } ∷ [];
  evolve = checked_sum;
  initial_state = 0;
}

total_of_all :
    get_view "total" "all" (run_multi_stream_projection plain totals after empty_store).1
    ≡ some (record { view_id = "all"; view = 36; sequence_nr = 3 })
unfolding run_multi_stream_projection get_view get set all_events persist_events plain
total_of_all = refl

run_multi_stream_projection_twice_example :
    run_multi_stream_projection plain totals after
      (run_multi_stream_projection plain totals after stale).1
    ≡ run_multi_stream_projection plain totals after stale
run_multi_stream_projection_twice_example =
    run_multi_stream_projection_twice plain totals after stale

clear_nested_example :
    (get_view (persistence_key "a" "b") "7" (clear "a" stale) ≡ none)
    × (get_offset (persistence_key "a" "b") "order" "7" (clear "a" stale) ≡ 0)
clear_nested_example = clear_nested "a" "b" "7" "order" "7" stale

-- A nudge inside a cycle, then the cycle's end.
nudge-Waits_example :
    IsOwed (end_cycle (nudge (begin_cycle created)))
    × ((end_cycle (nudge (begin_cycle created))).queued ≤ 1)
unfolding end_cycle nudge begin_cycle
nudge-Waits_example =
    nudge-Waits (begin_cycle created) (end_cycle (nudge (begin_cycle created)))
      (next at_first runs_once) refl (waits here (ends (omega arith)) refl (omega arith))
