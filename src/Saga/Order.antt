-- ===== src/Saga/Order.antt =====
-- The steps of a stateful saga over its tails: each entity climbs them one by one.
use mathlib.Core.Bool.{true≢false}
use mathlib.Core.Path.{subst}
use mathlib.Core.Option.{some_inj}
use Prim.Native.String.{◌++◌ as str_append}
use teob_ts.Common.{
  ◌⊎◌, ℕ, suc, String, Option, none, some, Bool, true, false, List, [], ◌∷◌, ◌≡◌, refl, sym, ap,
  ◌∙◌, arith, ◌==◌, ==_iff, str_eq, eq_iff, if◌then◌else◌, if_true, if_false, inl, inr, Bool-cases,
}
use teob_ts.Common.Maps.{or_zero, get-set, str_eq-append}
use teob_ts.Journal.{persistence_key}
use teob_ts.Saga.{
  SagaStore, SagaStep, SagaRecord, StatefulSagaDefinition, get_step, set_step, advance_offset,
  set_offset,
}
use teob_ts.Saga.Tail.{Tails, place, receive, finish, Tailed, start, receives, finishes}

if-value :
    (b : Bool) (n : ℕ) (o : Option ℕ)
    → or_zero (if b then some n else o) ≡ (if b then n else or_zero o)
unfolding or_zero
if-value true n o = refl
if-value false n o = refl

pub get_step-set_step :
    (name i j : String) (n : ℕ) (s : SagaStore)
    → get_step name j (set_step name i n s) ≡ (if str_eq i j then n else get_step name j s)
unfolding get_step set_step persistence_key or_zero
get_step-set_step name i j n s =
    ap or_zero (get-set s.steps (persistence_key name i) (persistence_key name j) n)
    ∙ if-value (str_eq (persistence_key name i) (persistence_key name j)) n _
    ∙ ap (λ b. if b then n else get_step name j s)
        (str_eq-append name (str_append ":" i) (str_append ":" j) ∙ str_eq-append ":" i j)

-- The steps that one entity finished, the last one first, took its counter from `first` to `now`, one
-- by one.
abbrev pub Climbs : ℕ → List ℕ → ℕ → Type 0
Climbs first [] now = now ≡ first
Climbs first (k ∷ ks) now = (now ≡ suc k) × Climbs first ks k

abbrev pub own_steps : String → List (ℕ × String) → List ℕ
own_steps i [] = []
own_steps i ((k, j) ∷ rest) = if str_eq j i then k ∷ own_steps i rest else own_steps i rest

module _ {E W : Type 0} (tag_of : E → Option String) (print : ℕ → String)
    (saga : StatefulSagaDefinition E W) where
  counter : String → Tails E W → ℕ
  counter i t = get_step saga.name i t.store

  -- A handler runs only for an entity that is at its step.
  IsInTurn : Tails E W → Type 0
  IsInTurn t = (k : ℕ) (x : SagaRecord E) → t.executing k ≡ some x → counter x.0 t ≡ k

  receive-counter :
      (step : SagaStep E W) (index : ℕ) (x : SagaRecord E) (i : String) (t : Tails E W)
      → counter i (receive tag_of print saga step index x t) ≡ counter i t
  unfolding counter receive advance_offset set_offset get_step
  receive-counter step index (j, n, e) i t = ground arith

  receive-executing :
      (step : SagaStep E W) (index : ℕ) (j : String) (n : ℕ) (e : E) (t : Tails E W)
      → let r = receive tag_of print saga step index (j, n, e) t in
        (r.executing ≡ t.executing)
        ⊎ ((counter j t ≡ index) × (r.executing ≡ place index (some (j, n, e)) t.executing))
  unfolding receive counter
  receive-executing step index j n e t = ground arith

  placed-IsInTurn :
      (index : ℕ) (x y : SagaRecord E) (k : ℕ) (t : Tails E W)
      → IsInTurn t
      → counter x.0 t ≡ index
      → place index (some x) t.executing k ≡ some y
      → counter y.0 t ≡ k
  unfolding IsInTurn
  placed-IsInTurn index x y k t h turn at = elim (Bool-cases (k == index)) [
    | inl same ↦
        let equal : x ≡ y =
          (some_inj).0 (sym (if_true (k == index) (some x) (t.executing k) same) ∙ at) in
        ap (λ z. counter z.0 t) (sym equal) ∙ turn ∙ sym ((==_iff k index).0 same)
    | inr ne ↦ h k y (sym (if_false (k == index) (some x) (t.executing k) ne) ∙ at)
  ]

  receive-IsInTurn :
      (step : SagaStep E W) (index : ℕ) (x : SagaRecord E) (t : Tails E W)
      → IsInTurn t
      → IsInTurn (receive tag_of print saga step index x t)
  unfolding IsInTurn
  receive-IsInTurn step index (j, n, e) t h k y at =
      receive-counter step index (j, n, e) y.0 t ∙ elim (receive-executing step index j n e t) [
        | inl same ↦ h k y (ap (λ f. f k) (sym same) ∙ at)
        | inr (turn, same) ↦
            placed-IsInTurn index (j, n, e) y k t h turn (ap (λ f. f k) (sym same) ∙ at)
      ]

  finish-counter :
      (step : SagaStep E W) (index : ℕ) (x : SagaRecord E) (i : String) (t : Tails E W)
      → counter i (finish tag_of print saga step index x t) ≡ (
          if (step.execute x.2 x.0 t.world).0
          then if str_eq x.0 i then suc index else counter i t
          else counter i t)
  unfolding counter finish advance_offset set_offset get_step
  finish-counter step index (j, n, e) i t = elim (Bool-cases (step.execute e j t.world).0) [
    | inl ok ↦ rw ok (get_step-set_step saga.name j i (suc index) t.store)
    | inr bad ↦ rw bad refl
  ]

  none≢some : (y : SagaRecord E) → none ≡ some y → ⊥
  none≢some y e = cc

  finish-other :
      (index : ℕ) (y : SagaRecord E) (k : ℕ) (t : Tails E W)
      → place index none t.executing k ≡ some y
      → (t.executing k ≡ some y) × ((k == index) ≡ false)
  finish-other index y k t at = elim (Bool-cases (k == index)) [
    | inl same ↦ absurd (none≢some y (sym (if_true (k == index) none (t.executing k) same) ∙ at))
    | inr ne ↦ (sym (if_false (k == index) none (t.executing k) ne) ∙ at, ne)
  ]

  apart :
      (x y : SagaRecord E) (index k : ℕ) (t : Tails E W)
      → IsInTurn t
      → t.executing index ≡ some x
      → t.executing k ≡ some y
      → (k == index) ≡ false
      → x.0 ≡ y.0
      → ⊥
  unfolding IsInTurn
  apart x y index k t h running before ne same =
      let equal : k ≡ index =
        sym (h k y before) ∙ ap (λ i. counter i t) (sym same) ∙ h index x running in
      true≢false (sym ((==_iff k index).1 equal) ∙ ne)

  unchanged :
      (ok same : Bool) (a b : ℕ) → same ≡ false → (if ok then if same then a else b else b) ≡ b
  unchanged ok same a b e = ground arith

  climb :
      (i : String) (first : ℕ) (done : List (ℕ × String)) (ok : Bool) (index : ℕ) (x : SagaRecord E)
      (u : Tails E W)
      → IsInTurn u
      → u.executing index ≡ some x
      → Climbs first (own_steps i done) (counter i u)
      → Climbs first
          (own_steps i (if ok then (index, x.0) ∷ done else done))
          (if ok then if str_eq x.0 i then suc index else counter i u else counter i u)
  unfolding IsInTurn
  climb i first done false index x u turn running climbs = climbs
  climb i first done true index x u turn running climbs = elim (Bool-cases (str_eq x.0 i)) [
    | inl same ↦
        let now : counter i u ≡ index =
          ap (λ j. counter j u) (sym ((eq_iff x.0 i).0 same)) ∙ turn index x running in
        rw same (refl, subst (Climbs first (own_steps i done)) now climbs)
    | inr other ↦ rw other climbs
  ]

  finish-IsInTurn :
      (step : SagaStep E W) (index : ℕ) (x : SagaRecord E) (t : Tails E W)
      → IsInTurn t
      → t.executing index ≡ some x
      → IsInTurn (finish tag_of print saga step index x t)
  unfolding IsInTurn finish
  finish-IsInTurn step index x t h running k y at =
      let (before, ne) = finish-other index y k t at in
      finish-counter step index x y.0 t ∙ elim (Bool-cases (str_eq x.0 y.0)) [
        | inl same ↦ absurd (apart x y index k t h running before ne ((eq_iff x.0 y.0).0 same))
        | inr other ↦
            unchanged (step.execute x.2 x.0 t.world).0 (str_eq x.0 y.0) _ _ other ∙ h k y before
      ]

  Tailed-Climbs :
      {t u : Tails E W} {done : List (ℕ × String)} (i : String)
      → Tailed tag_of print saga t done u
      → IsInTurn t
      → IsInTurn u × Climbs (counter i t) (own_steps i done) (counter i u)
  Tailed-Climbs i start h = (h, refl)
  Tailed-Climbs {t} i (receives {u} {done} index step x before at free) h =
      let (turn, climbs) = Tailed-Climbs i before h in
      (
        receive-IsInTurn step index x u turn,
        subst (Climbs (counter i t) (own_steps i done)) (sym (receive-counter step index x i u))
            climbs,
      )
  Tailed-Climbs {t} i (finishes {u} {done} index step x before at running) h =
      let (turn, climbs) = Tailed-Climbs i before h in
      (
        finish-IsInTurn step index x u turn running,
        subst (Climbs (counter i t) (own_steps i _)) (sym (finish-counter step index x i u)) (
            climb i (counter i t) done (step.execute x.2 x.0 u.world).0 index x u turn running
              climbs),
      )

-- However the tails of a stateful saga interleave, from a state in which no handler runs: the steps
-- whose handlers ended without an exception take each entity's counter from where it was to where it
-- is one by one, so for each entity every step below the counter that was open at first is taken
-- exactly once, in order, and no other is taken.
pub Tailed-Climbs_from :
    {E W : Type 0} (tag_of : E → Option String) (print : ℕ → String)
    (saga : StatefulSagaDefinition E W) (t u : Tails E W) (done : List (ℕ × String)) (i : String)
    → ((k : ℕ) → t.executing k ≡ none)
    → Tailed tag_of print saga t done u
    → Climbs (get_step saga.name i t.store) (own_steps i done) (get_step saga.name i u.store)
unfolding IsInTurn counter
Tailed-Climbs_from tag_of print saga t u done i idle run =
    (Tailed-Climbs tag_of print saga i run
      (λ k x at. absurd (none≢some tag_of print saga x (sym (idle k) ∙ at)))).1
