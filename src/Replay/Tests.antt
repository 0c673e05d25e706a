-- ===== src/Replay/Tests.antt =====
-- A counter that must stay below a limit, replayed.
use teob_ts.Common.{
  ℕ, ◌+◌, String, none, some, true, List, [], ◌∷◌, ◌≡◌, refl, ltb, map, if◌then◌else◌, ◌↔◌, All,
  ◌==◌,
}
use teob_ts.Replay.{
  Text, Invariant, Replayed, verify_entity, verify_all, verify_event_stream, replay_and_verify,
}
use teob_ts.Replay.Valid.{IsClean, verify_all-IsClean}
use teob_ts.Replay.Agree.{told, verify_event_stream-replay_and_verify}

abbrev text : Text ℕ
text = record {
  json = λ n. if ltb n 10 then "low" else "high";
  length_of = λ s. 4;
  slice_to = λ s n. s;
}

abbrev counter : Replayed ℕ ℕ
counter = record { initial = λ id. 0; apply = λ state event. state + event }

-- The check throws on 7.
abbrev limit : Invariant ℕ
limit = record { name = "limit"; check = λ n. if n == 7 then none else some (ltb n 10) }

exceeded :
    map told
      (verify_entity text counter (limit ∷ []) "c" ((4, 1) ∷ (3, 2) ∷ (5, 3) ∷ [])).violations
    ≡ ("limit", 2) ∷ ("limit", 3) ∷ []
unfolding verify_entity
exceeded = refl

abbrev two : List (String × List (ℕ × ℕ))
two = ("a", (4, 1) ∷ []) ∷ ("b", (12, 1) ∷ []) ∷ []

verify_all-IsClean_example :
    ((verify_all text counter (limit ∷ []) two).is_valid ≡ true)
    ↔ All (IsClean text counter (limit ∷ [])) two
verify_all-IsClean_example = verify_all-IsClean text counter (limit ∷ []) two

verify_event_stream-replay_and_verify_example :
    map told (verify_event_stream text counter (limit ∷ []) "c" (8 ∷ 5 ∷ [])).violations
    ≡ ("limit", 2) ∷ []
unfolding replay_and_verify
verify_event_stream-replay_and_verify_example =
    verify_event_stream-replay_and_verify text counter (limit ∷ []) (λ e. "e") "c" (8 ∷ 5 ∷ [])
      (record {
        entity_id = "c";
        events_replayed = 2;
        violations =
            record { invariant_name = "limit"; after_event = 2; event_description = "e" } ∷ [];
      })
      refl
