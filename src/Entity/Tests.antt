-- ===== src/Entity/Tests.antt =====
-- A counter as an aggregate: it lives, crashes and recovers.
use teob_ts.Common.{
  ℕ, ◌+◌, ◌<◌, ◌≢◌, none, some, false, [], ◌∷◌, ◌++◌, ◌≡◌, refl, arith, ◌⊎◌, length,
}
use teob_ts.Codec.{Codec, RoundTrips, object_codec}
use teob_ts.Journal.{empty, persist_events}
use teob_ts.Common.Maps.{get, set}
use teob_ts.Effect.{persist_then, reply_with, stash_now, unstash_then, done_now}
use teob_ts.Entity.Answers.{AskedOnce, ask_answered_once}
use teob_ts.Entity.Types.{
  Attempt, Eff, resolved, rejected, Wiring, Message, tell, ask, Runner, Ran, finished, crashed,
  out_of_fuel, replied,
}
use teob_ts.Entity.Execute.{offer, execute_effect}
use teob_ts.Entity.Loop.{create_entity_runner, handle_message, recover, turn}
use teob_ts.Entity.Recovery.{recovered}
use teob_ts.Entity.Reach.{arrives, turns, Reach, stored_count, begun, here, next, recover-Reach}
use teob_ts.Entity.Snapshots.{every, stored_count-lt-every}
use teob_ts.Entity.Recent.{snapshot_number}
use teob_ts.Entity.Termination.{handle_message_total}
use teob_ts.Entity.Mailbox.{offer_item, take_item, empty_mailbox, run_ops, mailbox_fifo}

data CounterCommand : Type 0 where
  add : ℕ → CounterCommand
  wait : CounterCommand
  release : CounterCommand
  fail : CounterCommand

does : Eff CounterCommand ℕ ℕ → Attempt CounterCommand (Eff CounterCommand ℕ ℕ)
does e = record { calls = []; outcome = resolved e }

decide : ℕ → CounterCommand → Attempt CounterCommand (Eff CounterCommand ℕ ℕ)
unfolding does
decide n (add k) = does (persist_then (k ∷ []) (reply_with (n + k)))
decide n wait = does stash_now
decide n release = does (unstash_then done_now)
decide n fail = record { calls = []; outcome = rejected "no" }

numbers : Codec ℕ ℕ
unfolding object_codec
numbers = object_codec "n"

numbers-RoundTrips : RoundTrips numbers
unfolding numbers
numbers-RoundTrips = record { decode-encode = λ a. refl }

abbrev counter : Wiring CounterCommand ℕ ℕ ℕ ℕ
counter = record {
  aggregate = record {
    category = "counter";
    initial = λ _. 0;
    decide = decide;
    apply = λ s e. s + e;
    on_recovery_complete = none;
    snapshot_every = some 2;
  };
  entity_id = "c";
  event_codec = numbers;
  state_codec = numbers;
  ignore_snapshots_on_recovery = false;
  stamp_of = λ _. none;
  ids = λ _. "id";
}

abbrev fresh : Runner CounterCommand ℕ ℕ ℕ
unfolding create_entity_runner
fresh = create_entity_runner counter empty 0 0

after : Ran (Runner CounterCommand ℕ ℕ ℕ) → Runner CounterCommand ℕ ℕ ℕ
after (finished w) = w
after (crashed e w) = w
after out_of_fuel = fresh

-- One message arrives and is handled.
deliver : Message CounterCommand → Runner CounterCommand ℕ ℕ ℕ → Runner CounterCommand ℕ ℕ ℕ
unfolding after turn
deliver m w = after (turn counter (offer m w))

abbrev busy : Runner CounterCommand ℕ ℕ ℕ
unfolding deliver
busy = deliver (ask (add 5) 1) fresh

busy_state :
    (busy.entity.state ≡ 5)
    × (busy.entity.sequence_nr ≡ 1)
    × (busy.answers ≡ (1, replied (some 5) 1 0) ∷ [])
unfolding busy deliver fresh decide execute_effect persist_events get set
busy_state = (refl, refl, refl)

busy_reached : Reach counter (create_entity_runner counter empty 0 0) busy
unfolding busy deliver fresh create_entity_runner decide execute_effect persist_events get set offer
    turn
busy_reached =
    next (next here (arrives (ask (add 5) 1) fresh)) (turns {w = offer (ask (add 5) 1) fresh} refl)

recover-Reach_example : recover counter busy.journal ≡ some (recovered counter busy)
recover-Reach_example =
    recover-Reach counter numbers-RoundTrips numbers-RoundTrips 0 0 busy busy_reached

stored_count-lt-every_example :
    (stored_count counter busy < begun counter busy_reached + every counter)
    ⊎ (stored_count counter busy < snapshot_number counter busy + every counter)
stored_count-lt-every_example =
    stored_count-lt-every counter numbers-RoundTrips numbers-RoundTrips 0 0 busy busy_reached
      (omega arith)

handle_message_total_example : handle_message counter (tell release) fresh ≢ out_of_fuel
handle_message_total_example = handle_message_total counter (tell release) fresh

mailbox_fifo_example :
    let b = run_ops (empty_mailbox {T = ℕ}) (take_item ∷ offer_item 4 ∷ offer_item 5 ∷ []) in
    (b.delivered ++ b.queue ≡ 4 ∷ 5 ∷ [])
    × (length b.delivered + b.waiters ≡ 1)
    × ((b.waiters ≡ 0) ⊎ (b.queue ≡ []))
mailbox_fifo_example = mailbox_fifo (take_item ∷ offer_item 4 ∷ offer_item 5 ∷ [])

ask_answered_once_example :
    AskedOnce counter fresh 1 (some 5) (handle_message counter (ask (add 5) 1) fresh)
unfolding fresh decide does
ask_answered_once_example =
    ask_answered_once counter (add 5) 1 (persist_then (5 ∷ []) (reply_with 5)) (some 5) fresh refl
      refl
