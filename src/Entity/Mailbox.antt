-- ===== src/Entity/Mailbox.antt =====
-- The mailbox: `createMailbox` of src/inmem/entity-runner.ts. A promise that waits in `take` is
-- counted; `delivered` are the messages that `take` has handed out, in order.
use teob_ts.Common.{
  ℕ, zero, suc, ◌+◌, List, [], ◌∷◌, ◌++◌, ◌≡◌, refl, ap, ◌∙◌, ◌⊎◌, inl, inr, arith, append_assoc,
  append-nil, length, length-append, sym,
}

pub record Mailbox (T : Type 0) : Type 0 where
  pub queue : List T
  pub waiters : ℕ
  pub delivered : List T

pub data MailboxOp (T : Type 0) : Type 0 where
  offer_item : T → MailboxOp T
  take_item : MailboxOp T

module _ {T : Type 0} where
  abbrev pub empty_mailbox : Mailbox T
  empty_mailbox = record { queue = []; waiters = 0; delivered = [] }

  offer_to : ℕ → T → Mailbox T → Mailbox T
  offer_to zero item b = record b { queue = b.queue ++ item ∷ [] }
  offer_to (suc n) item b = record b { waiters = n; delivered = b.delivered ++ item ∷ [] }

  -- `offer(item)`: the first waiter gets it, or it is queued.
  pub offer : T → Mailbox T → Mailbox T
  unfolding offer_to
  offer item b = offer_to b.waiters item b

  take_from : List T → Mailbox T → Mailbox T
  take_from [] b = record b { waiters = suc b.waiters }
  take_from (item ∷ rest) b = record b { queue = rest; delivered = b.delivered ++ item ∷ [] }

  -- `take()`: the head of the queue, or a new waiter.
  pub take : Mailbox T → Mailbox T
  unfolding take_from
  take b = take_from b.queue b

  -- `drain()`
  pub drain : Mailbox T → List T × Mailbox T
  drain b = (b.queue, record b { queue = [] })

  apply_op : Mailbox T → MailboxOp T → Mailbox T
  unfolding offer take
  apply_op b (offer_item x) = offer x b
  apply_op b take_item = take b

  pub run_ops : Mailbox T → List (MailboxOp T) → Mailbox T
  unfolding apply_op
  run_ops b [] = b
  run_ops b (op ∷ ops) = run_ops (apply_op b op) ops

  abbrev pub offered : List (MailboxOp T) → List T
  offered [] = []
  offered (offer_item x ∷ ops) = x ∷ offered ops
  offered (take_item ∷ ops) = offered ops

  abbrev pub takes : List (MailboxOp T) → ℕ
  takes [] = 0
  takes (offer_item x ∷ ops) = takes ops
  takes (take_item ∷ ops) = suc (takes ops)

  -- A message and a waiter never stay side by side.
  abbrev NoneIdle : Mailbox T → Type 0
  NoneIdle b = (b.waiters ≡ 0) ⊎ (b.queue ≡ [])

  -- What one operation does: nothing is lost or reordered, and each `take` gets one message or waits.
  abbrev Follows : Mailbox T → Mailbox T → List T → ℕ → Type 0
  Follows b b' new n =
      NoneIdle b'
      × (b'.delivered ++ b'.queue ≡ (b.delivered ++ b.queue) ++ new)
      × (length b'.delivered + b'.waiters ≡ length b.delivered + b.waiters + n)

  offer_to-Follows :
      (n : ℕ) (x : T) (b : Mailbox T)
      → b.waiters ≡ n
      → NoneIdle b
      → Follows b (offer_to n x b) (x ∷ []) 0
  unfolding offer_to
  offer_to-Follows zero x b e h =
      (inl e, sym (append_assoc b.delivered b.queue (x ∷ [])), omega arith)
  offer_to-Follows (suc n) x b e (inl z) = absurd (omega arith)
  offer_to-Follows (suc n) x b e (inr q) = (
    inr q,
    ap (λ l. (b.delivered ++ x ∷ []) ++ l) q
        ∙ append-nil (b.delivered ++ x ∷ [])
        ∙ sym (ap (λ l. l ++ x ∷ []) (ap (λ l. b.delivered ++ l) q ∙ append-nil b.delivered)),
    omega (arith, length-append b.delivered (x ∷ [])),
  )

  take_from-Follows :
      (q : List T) (b : Mailbox T) → b.queue ≡ q → NoneIdle b → Follows b (take_from q b) [] 1
  unfolding take_from
  take_from-Follows [] b e h = (inr e, sym (append-nil (b.delivered ++ b.queue)), omega arith)
  take_from-Follows (x ∷ rest) b e (inr q) = cc
  take_from-Follows (x ∷ rest) b e (inl z) = (
    inl z,
    append_assoc b.delivered (x ∷ []) rest
        ∙ sym (append-nil (b.delivered ++ b.queue) ∙ ap (λ l. b.delivered ++ l) e),
    omega (arith, length-append b.delivered (x ∷ [])),
  )

  Follows-trans :
      (b c d : Mailbox T) (xs ys : List T) (m n : ℕ)
      → Follows b c xs m
      → Follows c d ys n
      → Follows b d (xs ++ ys) (m + n)
  Follows-trans b c d xs ys m n f h = (
    h.0,
    h.1 ∙ ap (λ l. l ++ ys) f.1 ∙ append_assoc (b.delivered ++ b.queue) xs ys,
    omega (arith, f.2, h.2),
  )

  run_ops-Follows :
      (b : Mailbox T) (ops : List (MailboxOp T))
      → NoneIdle b
      → Follows b (run_ops b ops) (offered ops) (takes ops)
  unfolding run_ops
  run_ops-Follows b [] h = (h, sym (append-nil _), omega arith)
  run_ops-Follows b (offer_item x ∷ ops) h =
      let one = offer_to-Follows b.waiters x b refl h in
      let rest =
        Follows-trans b _ _ (x ∷ []) (offered ops) 0 (takes ops) one
          (run_ops-Follows (offer x b) ops one.0) in
      (rest.0, rest.1, omega (arith, rest.2))
  run_ops-Follows b (take_item ∷ ops) h =
      let one = take_from-Follows b.queue b refl h in
      let rest =
        Follows-trans b _ _ [] (offered ops) 1 (takes ops) one
          (run_ops-Follows (take b) ops one.0) in
      (rest.0, rest.1, omega (arith, rest.2))

  -- The mailbox is a first-in-first-out queue: after any offers and takes, the messages handed out,
  -- with those still queued behind them, are the messages offered, in order and each once; every
  -- take has a message or still waits for one; and none waits while a message is queued.
  pub mailbox_fifo :
      (ops : List (MailboxOp T))
      → let b = run_ops empty_mailbox ops in
        (b.delivered ++ b.queue ≡ offered ops)
        × (length b.delivered + b.waiters ≡ takes ops)
        × ((b.waiters ≡ 0) ⊎ (b.queue ≡ []))
  mailbox_fifo ops =
      let f = run_ops-Follows empty_mailbox ops (inl refl) in (f.1, omega (arith, f.2), f.0)
