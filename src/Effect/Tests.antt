-- ===== src/Effect/Tests.antt =====
-- Runs of the effect constructors, and the theorems on chains at one input.
use teob_ts.Common.{ℕ, ◌≡◌, refl, [], ◌∷◌}
use teob_ts.Effect.{
  Effect, persist_then, run_then, reply_with, done_now, persist, reply, run, and_run, and_reply,
  append_to_chain,
}
use teob_ts.Effect.Chain.{compose, append_to_chain-compose}

abbrev Ex : Type 0
Ex = Effect ℕ ℕ ℕ ℕ

abbrev saved : Ex
saved = persist_then (1 ∷ 2 ∷ []) (run_then 7 (reply_with 5))

built : and_reply {D = ℕ} (and_run (persist (1 ∷ 2 ∷ [])) 7) 5 ≡ saved
unfolding persist and_run and_reply
built = refl

dropped : and_run {E = ℕ} {R = ℕ} {A = ℕ} {D = ℕ} (reply 5) 7 ≡ reply_with 5
unfolding reply and_run
dropped = refl

append_to_chain-compose_example : append_to_chain saved (run 3) ≡ compose saved (run 3)
append_to_chain-compose_example = append_to_chain-compose saved (run 3)

abbrev first : Ex
first = run_then 1 done_now
