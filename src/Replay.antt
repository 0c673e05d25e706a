-- ===== src/Replay.antt =====
-- The verification of journals by replay: src/core/journal-replay-verifier.ts and
-- src/core/invariant.ts. A check that throws returns `none`. What JavaScript does with text (`json`
-- for `JSON.stringify`, its length and its slices, `print` for numbers) is a parameter.
pub mod Valid
pub mod Agree
mod Tests
use mathlib.Core.Option
use teob_ts.Common.{
  ℕ, suc, ◌+◌, ◌-◌, String, Option, none, some, Bool, true, false, List, [], ◌∷◌, ◌++◌, leb, ltb,
  ◌==◌, if◌then◌else◌, length, foldl, map,
}
use Prim.Native.String.{◌++◌ as str_append}

pub record Invariant (S : Type 0) : Type 0 where
  pub name : String
  pub check : S → Option Bool

-- What a replay needs of an aggregate.
pub record Replayed (E S : Type 0) : Type 0 where
  pub initial : String → S
  pub apply : S → E → S

pub record InvariantViolation : Type 0 where
  pub name : String
  pub aggregate_id : String
  pub sequence_nr : ℕ
  pub state_snippet : String

-- The violation of `replayAndVerify`, which names the event instead of the state.
pub record EventViolation : Type 0 where
  pub invariant_name : String
  pub after_event : ℕ
  pub event_description : String

pub record ReplayResult : Type 0 where
  pub entity_id : String
  pub events_replayed : ℕ
  pub violations : List EventViolation

pub record EntityVerification (S : Type 0) : Type 0 where
  pub aggregate_id : String
  pub events_processed : ℕ
  pub violations : List InvariantViolation
  pub final_state : S
  pub is_valid : Bool

pub record VerificationReport (S : Type 0) : Type 0 where
  pub entities : List (EntityVerification S)
  pub total_events : ℕ
  pub total_violations : ℕ
  pub is_valid : Bool

-- The text of a value, its length, and its first characters.
pub record Text (A : Type 0) : Type 0 where
  pub json : A → String
  pub length_of : String → ℕ
  pub slice_to : String → ℕ → String

unfoldable pub snippet_of : {S : Type 0} → Text S → S → String
snippet_of text state =
    let s = text.json state in
    if leb (text.length_of s) 200 then s else str_append (text.slice_to s 197) "..."

-- `false` also where the check throws
unfoldable pub holds : Option Bool → Bool
holds none = false
holds (some b) = b

module _ {S : Type 0} (text : Text S) where
  unfoldable pub check_invariants : List (Invariant S) → S → String → ℕ → List InvariantViolation
  unfolding snippet_of holds
  check_invariants [] state aggregate_id sequence_nr = []
  check_invariants (inv ∷ invariants) state aggregate_id sequence_nr =
      let rest = check_invariants invariants state aggregate_id sequence_nr in
      if holds (inv.check state)
      then rest
      else record {
        name = inv.name;
        aggregate_id = aggregate_id;
        sequence_nr = sequence_nr;
        state_snippet = snippet_of text state;
      }
        ∷ rest

abbrev pub is_none_of : List InvariantViolation → Bool
is_none_of [] = true
is_none_of (_ ∷ _) = false

module _ {E S : Type 0} (text : Text S) (aggregate : Replayed E S)
    (invariants : List (Invariant S)) where
  -- The loop of `verifyEntity`: the state, the count and the violations so far.
  unfoldable pub verify_loop :
      String → List (E × ℕ) → S → ℕ → List InvariantViolation → S × ℕ × List InvariantViolation
  unfolding check_invariants
  verify_loop id [] state n violations = (state, n, violations)
  verify_loop id ((event, seq) ∷ events) state n violations =
      let state' = aggregate.apply state event in
      verify_loop id events state' (suc n)
        (violations ++ check_invariants text invariants state' id seq)

  -- The events of the journal, each with its number.
  unfoldable pub verify_entity : String → List (E × ℕ) → EntityVerification S
  unfolding verify_loop
  verify_entity id events =
      let r = verify_loop id events (aggregate.initial id) 0 [] in
      record {
        aggregate_id = id;
        events_processed = r.1;
        violations = r.2;
        final_state = r.0;
        is_valid = is_none_of r.2;
      }

  unfoldable pub verify_stream_loop :
      String → List E → S → ℕ → List InvariantViolation → S × ℕ × List InvariantViolation
  unfolding check_invariants
  verify_stream_loop id [] state n violations = (state, n, violations)
  verify_stream_loop id (event ∷ events) state n violations =
      let state' = aggregate.apply state event in
      verify_stream_loop id events state' (suc n)
        (violations ++ check_invariants text invariants state' id (suc n))

  unfoldable pub verify_event_stream : String → List E → EntityVerification S
  unfolding verify_stream_loop
  verify_event_stream id events =
      let r = verify_stream_loop id events (aggregate.initial id) 0 [] in
      record {
        aggregate_id = id;
        events_processed = r.1;
        violations = r.2;
        final_state = r.0;
        is_valid = is_none_of r.2;
      }

  -- The loop of `verifyAll` over the ids of the journal and their events.
  unfoldable pub verify_all_loop :
      List (String × List (E × ℕ))
      → List (EntityVerification S) × ℕ × ℕ
      → List (EntityVerification S) × ℕ × ℕ
  unfolding verify_entity
  verify_all_loop [] r = r
  verify_all_loop ((id, events) ∷ ids) (entities, total_events, total_violations) =
      let v = verify_entity id events in
      verify_all_loop ids (
        entities ++ v ∷ [],
        total_events + v.events_processed,
        total_violations + length v.violations,
      )

  unfoldable pub verify_all : List (String × List (E × ℕ)) → VerificationReport S
  unfolding verify_all_loop
  verify_all ids =
      let r = verify_all_loop ids ([], 0, 0) in
      record { entities = r.0; total_events = r.1; total_violations = r.2; is_valid = r.2 == 0 }

abbrev pub and_then : {A B : Type 0} → Option A → (A → Option B) → Option B
and_then none f = none
and_then (some a) f = f a

-- One check and then the others; a check that throws ends them.
unfoldable pub each_found :
    EventViolation → Option Bool → Option (List EventViolation) → Option (List EventViolation)
each_found violation none rest = none
each_found violation (some ok) none = none
each_found violation (some true) (some violations) = some violations
each_found violation (some false) (some violations) = some (violation ∷ violations)

-- The inner loop of `replayAndVerify`.
unfoldable pub check_each :
    {S : Type 0} → List (Invariant S) → S → ℕ → String → Option (List EventViolation)
unfolding each_found
check_each [] state n description = some []
check_each (inv ∷ invariants) state n description =
    each_found
      (record { invariant_name = inv.name; after_event = n; event_description = description })
      (inv.check state) (check_each invariants state n description)

module _ {E S : Type 0} (aggregate : Replayed E S) (invariants : List (Invariant S))
    (json : E → String) where
  unfoldable pub replay_loop : List E → S → ℕ → List EventViolation → Option (List EventViolation)
  unfolding check_each
  replay_loop [] state n violations = some violations
  replay_loop (event ∷ events) state n violations =
      let state' = aggregate.apply state event in
      and_then (check_each invariants state' (suc n) (json event))
        (λ found. replay_loop events state' (suc n) (violations ++ found))

  unfoldable pub replay_and_verify : String → List E → Option ReplayResult
  unfolding replay_loop
  replay_and_verify id events =
      Option.map
        (λ violations. record {
          entity_id = id;
          events_replayed = length events;
          violations = violations;
        })
        (replay_loop events (aggregate.initial id) 0 [])

unfoldable pub violation_line : (ℕ → String) → InvariantViolation → String
violation_line print v = str_append "    seq " (
    str_append (print v.sequence_nr)
      (str_append ": " (str_append v.name (str_append " — state: " v.state_snippet))))

module _ {S : Type 0} (print : ℕ → String) where
  unfoldable pub entity_lines : List (EntityVerification S) → List String × ℕ
  unfolding violation_line
  entity_lines [] = ([], 0)
  entity_lines (e ∷ es) =
      let (lines, clean) = entity_lines es in
      let header = str_append "  " (
        str_append e.aggregate_id
          (str_append " (" (str_append (print e.events_processed) " events): ✗"))) in
      if e.is_valid
      then (lines, suc clean)
      else (header ∷ (map (violation_line print) e.violations ++ lines), clean)

  unfoldable pub format_report : List (EntityVerification S) → ℕ → ℕ → List String
  unfolding entity_lines
  format_report entities total_events total_violations =
      let (lines, clean) = entity_lines entities in
      let counts = str_append "Verification report: " (
        str_append (print (length entities)) (
          str_append " entities, " (
            str_append (print total_events)
              (str_append " events, " (str_append (print total_violations) " violations"))))) in
      let others = str_append "  " (str_append (print clean) " other entities: ✓") in
      counts ∷ "" ∷ (lines ++ (if ltb 0 clean then others ∷ [] else []))
