-- ===== src/Window.antt =====
-- Windows of events: `EventWindow` of src/core/window.ts. Times are milliseconds; `e.at >= now -
-- windowMs` is written without the difference, which may be negative there.
pub mod Eviction
mod Tests
use teob_ts.Common.{
  ℕ, ◌+◌, Option, none, some, List, [], ◌∷◌, map, filter, length, leb, if◌then◌else◌, Bool,
}

pub record WindowEntry (A : Type 0) : Type 0 where
  pub at : ℕ
  pub value : A

pub record EventWindow (A : Type 0) : Type 0 where
  -- newest first
  pub entries : List (WindowEntry A)

module _ {A : Type 0} where
  -- The stable sort by `b.at - a.at`.
  unfoldable pub insert_entry : WindowEntry A → List (WindowEntry A) → List (WindowEntry A)
  insert_entry e [] = e ∷ []
  insert_entry e (x ∷ xs) =
      let rest = insert_entry e xs in if leb x.at e.at then e ∷ x ∷ xs else x ∷ rest

  unfoldable pub sort_entries : List (WindowEntry A) → List (WindowEntry A)
  unfolding insert_entry
  sort_entries [] = []
  sort_entries (e ∷ es) = insert_entry e (sort_entries es)

  abbrev pub in_window : ℕ → ℕ → WindowEntry A → Bool
  in_window now window_ms e = leb now (e.at + window_ms)

  unfoldable pub retain_entries : List (WindowEntry A) → ℕ → ℕ → List (WindowEntry A)
  unfolding sort_entries
  retain_entries candidates now window_ms =
      sort_entries (filter (in_window now window_ms) candidates)

  abbrev pub empty : EventWindow A
  empty = record { entries = [] }

  unfoldable pub add : EventWindow A → ℕ → A → ℕ → EventWindow A
  unfolding retain_entries
  add w at value window_ms = record {
    entries = retain_entries (record { at = at; value = value } ∷ w.entries) at window_ms;
  }

  unfoldable pub within : EventWindow A → ℕ → ℕ → List (WindowEntry A)
  unfolding retain_entries
  within w now window_ms = retain_entries w.entries now window_ms

  unfoldable pub values : EventWindow A → ℕ → ℕ → List A
  unfolding retain_entries
  values w now window_ms = map (λ e. e.value) (retain_entries w.entries now window_ms)

  unfoldable pub size : EventWindow A → ℕ → ℕ → ℕ
  unfolding retain_entries
  size w now window_ms = length (retain_entries w.entries now window_ms)

  last_at : List (WindowEntry A) → Option ℕ
  last_at [] = none
  last_at (e ∷ []) = some e.at
  last_at (e ∷ f ∷ es) = last_at (f ∷ es)

  unfoldable pub oldest : EventWindow A → ℕ → ℕ → Option ℕ
  unfolding retain_entries last_at
  oldest w now window_ms = last_at (retain_entries w.entries now window_ms)
