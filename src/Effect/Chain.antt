-- ===== src/Effect/Chain.antt =====
-- `append_to_chain` as the composition of programs: an effect is a list of steps and an ending.
use teob_ts.Common.{
  ◌≡◌, refl, ap, ◌∙◌, sym, Bool, true, false, List, [], ◌∷◌, ◌++◌, append_assoc, arith,
  if◌then◌else◌,
}
use teob_ts.Effect.{
  Effect, persist_then, run_then, reply_with, deferred_with, snapshot_then, stop_now, stash_now,
  unstash_then, done_now, append_to_chain, has_reply, extract_events,
}

-- The steps that have a continuation.
pub data Step (E A : Type 0) : Type 0 where
  persisting : List E → Step E A
  running : A → Step E A
  snapshotting : Step E A
  unstashing : Step E A

-- The tags that have none.
pub data Ending (R D : Type 0) : Type 0 where
  replies : R → Ending R D
  defers : D → Ending R D
  stops : Ending R D
  stashes : Ending R D
  continues : Ending R D

abbrev pub is_open : {R D : Type 0} → Ending R D → Bool
is_open continues = true
is_open (replies _) = false
is_open (defers _) = false
is_open stops = false
is_open stashes = false

module _ {E R A D : Type 0} where
  abbrev pub steps : Effect E R A D → List (Step E A)
  steps (persist_then events rest) = persisting events ∷ steps rest
  steps (run_then a rest) = running a ∷ steps rest
  steps (snapshot_then rest) = snapshotting ∷ steps rest
  steps (unstash_then rest) = unstashing ∷ steps rest
  steps (reply_with value) = []
  steps (deferred_with d) = []
  steps stop_now = []
  steps stash_now = []
  steps done_now = []

  abbrev pub ending : Effect E R A D → Ending R D
  ending (persist_then events rest) = ending rest
  ending (run_then a rest) = ending rest
  ending (snapshot_then rest) = ending rest
  ending (unstash_then rest) = ending rest
  ending (reply_with value) = replies value
  ending (deferred_with d) = defers d
  ending stop_now = stops
  ending stash_now = stashes
  ending done_now = continues

  -- An effect is determined by its steps and its ending.
  abbrev build : List (Step E A) → Ending R D → Effect E R A D
  build [] (replies r) = reply_with r
  build [] (defers d) = deferred_with d
  build [] stops = stop_now
  build [] stashes = stash_now
  build [] continues = done_now
  build (persisting events ∷ l) t = persist_then events (build l t)
  build (running a ∷ l) t = run_then a (build l t)
  build (snapshotting ∷ l) t = snapshot_then (build l t)
  build (unstashing ∷ l) t = unstash_then (build l t)

  build_of_parts : (e : Effect E R A D) → build (steps e) (ending e) ≡ e
  build_of_parts (persist_then events rest) = ap (persist_then events) (build_of_parts rest)
  build_of_parts (run_then a rest) = ap (run_then a) (build_of_parts rest)
  build_of_parts (snapshot_then rest) = ap snapshot_then (build_of_parts rest)
  build_of_parts (unstash_then rest) = ap unstash_then (build_of_parts rest)
  build_of_parts (reply_with value) = refl
  build_of_parts (deferred_with d) = refl
  build_of_parts stop_now = refl
  build_of_parts stash_now = refl
  build_of_parts done_now = refl

  -- The composition of the steps and endings.
  abbrev pub compose : Effect E R A D → Effect E R A D → Effect E R A D
  compose e next =
      if is_open (ending e)
      then build (steps e ++ steps next) (ending next)
      else build (steps e) (ending e)

  -- Appending to a chain runs the steps of both and ends as the second does if the first ends in
  -- `Done`; behind any other ending it changes nothing.
  pub append_to_chain-compose : (e next : Effect E R A D) → append_to_chain e next ≡ compose e next
  unfolding append_to_chain
  append_to_chain-compose (persist_then events rest) next =
      ap (persist_then events) (append_to_chain-compose rest next) ∙ ground arith
  append_to_chain-compose (run_then a rest) next =
      ap (run_then a) (append_to_chain-compose rest next) ∙ ground arith
  append_to_chain-compose (snapshot_then rest) next =
      ap snapshot_then (append_to_chain-compose rest next) ∙ ground arith
  append_to_chain-compose (unstash_then rest) next =
      ap unstash_then (append_to_chain-compose rest next) ∙ ground arith
  append_to_chain-compose done_now next = sym (build_of_parts next)
  append_to_chain-compose (reply_with value) next = refl
  append_to_chain-compose (deferred_with d) next = refl
  append_to_chain-compose stop_now next = refl
  append_to_chain-compose stash_now next = refl

  -- Building a chain step by step gives the same effect however the parts are grouped.
  pub append_to_chain_assoc :
      (a b c : Effect E R A D)
      → append_to_chain (append_to_chain a b) c ≡ append_to_chain a (append_to_chain b c)
  unfolding append_to_chain
  append_to_chain_assoc (persist_then events rest) b c =
      ap (persist_then events) (append_to_chain_assoc rest b c)
  append_to_chain_assoc (run_then s rest) b c = ap (run_then s) (append_to_chain_assoc rest b c)
  append_to_chain_assoc (snapshot_then rest) b c = ap snapshot_then (append_to_chain_assoc rest b c)
  append_to_chain_assoc (unstash_then rest) b c = ap unstash_then (append_to_chain_assoc rest b c)
  append_to_chain_assoc done_now b c = refl
  append_to_chain_assoc (reply_with value) b c = refl
  append_to_chain_assoc (deferred_with d) b c = refl
  append_to_chain_assoc stop_now b c = refl
  append_to_chain_assoc stash_now b c = refl

  pub append_to_chain-done : (e : Effect E R A D) → append_to_chain e done_now ≡ e
  unfolding append_to_chain
  append_to_chain-done (persist_then events rest) =
      ap (persist_then events) (append_to_chain-done rest)
  append_to_chain-done (run_then a rest) = ap (run_then a) (append_to_chain-done rest)
  append_to_chain-done (snapshot_then rest) = ap snapshot_then (append_to_chain-done rest)
  append_to_chain-done (unstash_then rest) = ap unstash_then (append_to_chain-done rest)
  append_to_chain-done done_now = refl
  append_to_chain-done (reply_with value) = refl
  append_to_chain-done (deferred_with d) = refl
  append_to_chain-done stop_now = refl
  append_to_chain-done stash_now = refl

  -- The events of an appended chain are those of the first effect, followed by those of the second
  -- exactly if the first ends in `Done`; and it replies if the first does, or if the first ends in
  -- `Done` and the second replies.
  pub append_to_chain_observed :
      (e next : Effect E R A D)
      → (extract_events (append_to_chain e next)
          ≡ extract_events e ++ (if is_open (ending e) then extract_events next else []))
        × (has_reply (append_to_chain e next)
            ≡ (if is_open (ending e) then has_reply next else has_reply e))
  unfolding append_to_chain extract_events has_reply
  append_to_chain_observed (persist_then events rest) next =
      let ih = append_to_chain_observed rest next in
      (ap (λ l. events ++ l) ih.0 ∙ sym (append_assoc events (extract_events rest) _), ih.1)
  append_to_chain_observed (run_then a rest) next = append_to_chain_observed rest next
  append_to_chain_observed (snapshot_then rest) next = append_to_chain_observed rest next
  append_to_chain_observed (unstash_then rest) next = append_to_chain_observed rest next
  append_to_chain_observed done_now next = (refl, refl)
  append_to_chain_observed (reply_with value) next = (refl, refl)
  append_to_chain_observed (deferred_with d) next = (refl, refl)
  append_to_chain_observed stop_now next = (refl, refl)
  append_to_chain_observed stash_now next = (refl, refl)
