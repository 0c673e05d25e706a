-- ===== src/Effect.antt =====
-- The effect descriptions of src/core/effect.ts. `E` is the type of events, `R` of replies. `A`
-- stands for the closures of `Run` (the interpreter in Entity says what one does) and `D` for the
-- references to deferred replies.
pub mod Chain
mod Tests
use teob_ts.Common.{Bool, true, false, List, [], ◌++◌}

pub data Effect (E R A D : Type 0) : Type 0 where
  persist_then : List E → Effect E R A D → Effect E R A D
  run_then : A → Effect E R A D → Effect E R A D
  reply_with : R → Effect E R A D
  deferred_with : D → Effect E R A D
  snapshot_then : Effect E R A D → Effect E R A D
  stop_now : Effect E R A D
  stash_now : Effect E R A D
  unstash_then : Effect E R A D → Effect E R A D
  done_now : Effect E R A D

module _ {E R A D : Type 0} where
  unfoldable pub persist : List E → Effect E R A D
  persist events = persist_then events done_now

  unfoldable pub reply : R → Effect E R A D
  reply value = reply_with value

  unfoldable pub run : A → Effect E R A D
  run side_effect = run_then side_effect done_now

  unfoldable pub snapshot : Effect E R A D
  snapshot = snapshot_then done_now

  unfoldable pub stop : Effect E R A D
  stop = stop_now

  unfoldable pub stash : Effect E R A D
  stash = stash_now

  unfoldable pub unstash : Effect E R A D
  unstash = unstash_then done_now

  unfoldable pub reply_deferred : D → Effect E R A D
  reply_deferred deferred = deferred_with deferred

  unfoldable pub done : Effect E R A D
  done = done_now

  -- `Reply`, `ReplyDeferred`, `Stop` and `Stash` end a chain: what follows them is dropped.
  unfoldable pub append_to_chain : Effect E R A D → Effect E R A D → Effect E R A D
  append_to_chain (persist_then events rest) next = persist_then events (append_to_chain rest next)
  append_to_chain (run_then side_effect rest) next =
      run_then side_effect (append_to_chain rest next)
  append_to_chain (snapshot_then rest) next = snapshot_then (append_to_chain rest next)
  append_to_chain (unstash_then rest) next = unstash_then (append_to_chain rest next)
  append_to_chain done_now next = next
  append_to_chain (reply_with value) next = reply_with value
  append_to_chain (deferred_with deferred) next = deferred_with deferred
  append_to_chain stop_now next = stop_now
  append_to_chain stash_now next = stash_now

  unfoldable pub and_run : Effect E R A D → A → Effect E R A D
  unfolding append_to_chain
  and_run effect side_effect = append_to_chain effect (run_then side_effect done_now)

  unfoldable pub and_reply : Effect E R A D → R → Effect E R A D
  unfolding append_to_chain
  and_reply effect value = append_to_chain effect (reply_with value)

  unfoldable pub and_snapshot : Effect E R A D → Effect E R A D
  unfolding append_to_chain
  and_snapshot effect = append_to_chain effect (snapshot_then done_now)

  unfoldable pub and_stop : Effect E R A D → Effect E R A D
  unfolding append_to_chain
  and_stop effect = append_to_chain effect stop_now

  unfoldable pub and_reply_deferred : Effect E R A D → D → Effect E R A D
  unfolding append_to_chain
  and_reply_deferred effect deferred = append_to_chain effect (deferred_with deferred)

  unfoldable pub and_unstash : Effect E R A D → Effect E R A D
  unfolding append_to_chain
  and_unstash effect = append_to_chain effect (unstash_then done_now)

  unfoldable pub has_reply : Effect E R A D → Bool
  has_reply (reply_with value) = true
  has_reply (deferred_with deferred) = true
  has_reply (persist_then events rest) = has_reply rest
  has_reply (run_then side_effect rest) = has_reply rest
  has_reply (snapshot_then rest) = has_reply rest
  has_reply (unstash_then rest) = has_reply rest
  has_reply stop_now = false
  has_reply stash_now = false
  has_reply done_now = false

  unfoldable pub extract_events : Effect E R A D → List E
  extract_events (persist_then events rest) = events ++ extract_events rest
  extract_events (run_then side_effect rest) = extract_events rest
  extract_events (snapshot_then rest) = extract_events rest
  extract_events (unstash_then rest) = extract_events rest
  extract_events (reply_with value) = []
  extract_events (deferred_with deferred) = []
  extract_events stop_now = []
  extract_events stash_now = []
  extract_events done_now = []
