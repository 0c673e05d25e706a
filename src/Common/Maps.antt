-- ===== src/Common/Maps.antt =====
-- JavaScript's `Map` with text keys, in insertion order: `set` on a present key writes in place.
use Prim.Native.Nat.{ℕ, ◌≤◌}
use Prim.Native.String.{String}
use mathlib.Core.Path.{◌≡◌, refl}
use mathlib.Core.Option.{Option, none, some}
use mathlib.Core.List.{List, [], ◌∷◌}
use native.Mathlib.Omega.{arith}
use mathlib.Core.Bool.{false}
use text.Mathlib.Text.{◌==◌}
use mathlib.Core.Path.{sym, ap, ◌∙◌}
use mathlib.Core.Bool.{true≢false}
use mathlib.Core.Logic.{inl, inr}
use Prim.Native.String.{◌++◌ as str_append}
use text.Mathlib.TextLemmas.{append_cancel_left}
use teob_ts.Common.Tests.{Bool-cases}
use text.Mathlib.TextEquality.{eq_iff}
use text.Mathlib.TextPositions.{eq_refl}
use teob_ts.Common.Tests.{if◌then◌else◌}

abbrev pub Map {ℓ} : Type ℓ → Type ℓ
Map V = List (String × V)

module _ {ℓ} {V : Type ℓ} where
  -- `m.get(k)`
  unfoldable pub get : Map V → String → Option V
  get [] k = none
  get ((j, v) ∷ m) k = if j == k then some v else get m k

  -- `m.set(k, v)`
  unfoldable pub set : Map V → String → V → Map V
  set [] k v = (k, v) ∷ []
  set ((j, w) ∷ m) k v = let rest = set m k v in if j == k then (j, v) ∷ m else (j, w) ∷ rest

  -- `m.delete(k)`
  unfoldable pub delete : Map V → String → Map V
  delete [] k = []
  delete ((j, w) ∷ m) k = let rest = delete m k in if j == k then rest else (j, w) ∷ rest

  -- `[...m.values()]`
  unfoldable pub values : Map V → List V
  values [] = []
  values ((j, v) ∷ m) = v ∷ values m

  pub get-set :
      (m : Map V) (k j : String) (v : V) → get (set m k v) j ≡ (if k == j then some v else get m j)
  unfolding get set
  get-set [] k j v = refl
  get-set ((i, w) ∷ m) k j v = ground (arith, eq_iff k j, eq_iff i k, eq_iff i j, get-set m k j v)

  pub get-set_self : (m : Map V) (k : String) (v : V) → get (set m k v) k ≡ some v
  get-set_self m k v = simp (get-set, eq_refl)

  pub get-delete :
      (m : Map V) (k j : String) → get (delete m k) j ≡ (if k == j then none else get m j)
  unfolding get delete
  get-delete [] k j = ground arith
  get-delete ((i, w) ∷ m) k j = ground (arith, eq_iff k j, eq_iff i k, eq_iff i j, get-delete m k j)

  pub get-set_ne :
      (m : Map V) (k j : String) (v : V) → (k == j) ≡ false → get (set m k v) j ≡ get m j
  get-set_ne m k j v ne = rw get-set (rw ne)

-- Keys with a common beginning are equal just where their ends are.
pub str_eq-append : (a b c : String) → (str_append a b == str_append a c) ≡ (b == c)
str_eq-append a b c = elim (Bool-cases (b == c)) [
  | inl h ↦
      let same : b ≡ c = (eq_iff b c).0 h in
      ap (λ x. str_append a b == str_append a x) (sym same) ∙ eq_refl (str_append a b) ∙ sym h
  | inr h ↦ elim (Bool-cases (str_append a b == str_append a c)) [
    | inl k ↦ absurd (
        true≢false (
          sym (eq_refl b)
          ∙ ap (λ x. b == x)
              (append_cancel_left a b c ((eq_iff (str_append a b) (str_append a c)).0 k))
          ∙ h))
    | inr k ↦ k ∙ sym h
  ]
]

-- `m.get(k) ?? 0`, of what `get` found
unfoldable pub or_zero : Option ℕ → ℕ
or_zero none = 0
or_zero (some n) = n

-- A write of no smaller number lowers no entry.
pub set-forward :
    (m : Map ℕ) (k j : String) (n : ℕ)
    → or_zero (get m k) ≤ n
    → or_zero (get m j) ≤ or_zero (get (set m k n) j)
unfolding or_zero
set-forward m k j n h = elim (Bool-cases (k == j)) [
  | inl e ↦ let same : k ≡ j = (eq_iff k j).0 e in rw (get-set, e, ← same) h
  | inr e ↦ rw (get-set, e) (omega arith)
]
