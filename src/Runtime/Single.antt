-- ===== src/Runtime/Single.antt =====
-- At any time, at most one runner of an entity lives.
use mathlib.Core.Path.{subst}
use mathlib.Core.Option.{some_inj}
use mathlib.Core.Bool.{true≢false}
use teob_ts.Common.{
  ℕ, suc, ◌<◌, String, Option, none, some, true, false, List, [], ◌∷◌, ◌==◌, ◌≡◌, refl, sym, ap,
  ◌∙◌, arith, if_true, if_false, ==_iff, str_eq, eq_iff, eq_refl, inl, inr, Bool-cases,
}
use teob_ts.Common.Maps.{get, set, get-set}
use teob_ts.Entity.Types.{Message}
use teob_ts.Runtime.{Incarnation, Module, put_runner, create, get_or_create_at, offer, offer_all}

below : (k n : ℕ) → k < suc n → (k == n) ≡ false → k < n
below k n lt ne = ground arith

apart : (k n : ℕ) → k < n → (k == n) ≡ false
apart k n lt = ground arith

pub none≢index : (n : ℕ) → none ≡ some n → ⊥
none≢index n e = cc

pub elsewhere : (a b : String) → (a ≡ b → ⊥) → str_eq a b ≡ false
elsewhere a b ne = elim (Bool-cases (str_eq a b)) [
  | inl e ↦ absurd (ne ((eq_iff a b).0 e))
  | inr e ↦ e
]

module _ {C : Type 0} where
  -- Every runner that lives is the one that is registered for its entity.
  unfoldable pub IsRegistered : Module C → Type 0
  IsRegistered m =
      (n : ℕ)
      → n < m.created
      → (m.runner n).terminated ≡ false
      → get m.entities (m.runner n).entity_id ≡ some n

  -- What is registered was created for the entity.
  unfoldable pub IsOwned : Module C → Type 0
  IsOwned m =
      (id : String) (n : ℕ)
      → get m.entities id ≡ some n
      → (n < m.created) × ((m.runner n).entity_id ≡ id)

  unfoldable pub IsSingle : Module C → Type 0
  IsSingle m = IsRegistered m × IsOwned m

  -- A step that leaves what the runtime knows of a runner.
  Same : Module C → Module C → Type 0
  Same m m' =
      (m'.entities ≡ m.entities)
      × (m'.created ≡ m.created)
      × ((n : ℕ)
          → ((m'.runner n).entity_id ≡ (m.runner n).entity_id)
            × ((m'.runner n).terminated ≡ (m.runner n).terminated))

  Same-IsSingle : (m m' : Module C) → Same m m' → IsSingle m → IsSingle m'
  unfolding Same IsSingle IsRegistered IsOwned
  Same-IsSingle m m' (entities, created, same) (registered, owned) = (
    λ n lt live.
        subst (λ e. get e (m'.runner n).entity_id ≡ some n) (sym entities)
          (ap (get m.entities) (same n).0
            ∙ registered n (subst (λ k. n < k) created lt) (sym (same n).1 ∙ live)),
    λ id n at.
        let (lt, mine) = owned id n (ap (λ e. get e id) (sym entities) ∙ at) in
        (subst (λ k. n < k) (sym created) lt, (same n).0 ∙ mine),
  )

  offer-Same : (message : Message C) (n : ℕ) (m : Module C) → Same m (offer message (n, m))
  unfolding Same offer
  offer-Same message n m = (
    refl,
    refl,
    λ k. elim (Bool-cases (k == n)) [
      | inl e ↦ let same : k ≡ n = (==_iff k n).0 e in rw (e, same) (refl, refl)
      | inr e ↦ rw e (refl, refl)
    ],
  )

  pub put_other :
      (n k : ℕ) (x : Incarnation C) (f : ℕ → Incarnation C)
      → (k == n) ≡ false
      → put_runner n x f k ≡ f k
  put_other n k x f ne = if_false (k == n) x (f k) ne

  pub put_same :
      (n k : ℕ) (x : Incarnation C) (f : ℕ → Incarnation C)
      → (k == n) ≡ true
      → put_runner n x f k ≡ x
  put_same n k x f e = if_true (k == n) x (f k) e

  -- No runner that lives is registered for the entity.
  IsVacant : String → Module C → Type 0
  IsVacant id m = (k : ℕ) → get m.entities id ≡ some k → (m.runner k).terminated ≡ true

  fresh : String → Incarnation C
  fresh id = record { entity_id = id; terminated = false; offered = [] }

  create-IsRegistered :
      (id : String) (m : Module C) → IsSingle m → IsVacant id m → IsRegistered (create id m).1
  unfolding create IsRegistered IsSingle IsVacant fresh
  create-IsRegistered id m (registered, owned) vacant k lt live =
      elim (Bool-cases (k == m.created)) [
        | inl e ↦
            let same = put_same m.created k (fresh id) m.runner e in
            ap (λ x. get (set m.entities id m.created) x.entity_id) same
            ∙ get-set m.entities id id m.created
            ∙ if_true (str_eq id id) (some m.created) _ (eq_refl id)
            ∙ ap some (sym ((==_iff k m.created).0 e))
        | inr ne ↦
            let same = put_other m.created k (fresh id) m.runner ne in
            let old : get m.entities (m.runner k).entity_id ≡ some k =
              registered k (below k m.created lt ne) (sym (ap (λ x. x.terminated) same) ∙ live) in
            ap (λ x. get (set m.entities id m.created) x.entity_id) same
            ∙ get-set m.entities id (m.runner k).entity_id m.created
            ∙ if_false (str_eq id (m.runner k).entity_id) (some m.created) _ (
                elsewhere id (m.runner k).entity_id (λ e. true≢false (
                  sym (vacant k (ap (get m.entities) e ∙ old))
                  ∙ sym (ap (λ x. x.terminated) same)
                  ∙ live)))
            ∙ old
      ]

  create-IsOwned : (id : String) (m : Module C) → IsSingle m → IsOwned (create id m).1
  unfolding create IsOwned IsSingle fresh
  create-IsOwned id m (registered, owned) j n at = elim (Bool-cases (str_eq id j)) [
    | inl e ↦
        let now : some m.created ≡ some n =
          sym (get-set m.entities id j m.created ∙ if_true (str_eq id j) (some m.created) _ e)
          ∙ at in
        let equal : m.created ≡ n = (some_inj).0 now in
        (
          omega (arith, equal),
          ap (λ x. x.entity_id)
                (put_same m.created n (fresh id) m.runner ((==_iff n m.created).1 (sym equal)))
              ∙ (eq_iff id j).0 e,
        )
    | inr ne ↦
        let before : get m.entities j ≡ some n =
          sym (get-set m.entities id j m.created ∙ if_false (str_eq id j) (some m.created) _ ne)
          ∙ at in
        let (lt, mine) = owned j n before in
        (
          omega (arith, lt),
          ap (λ x. x.entity_id) (put_other m.created n (fresh id) m.runner (apart n m.created lt))
              ∙ mine,
        )
  ]

  -- What `getOrCreate` returns: a runner of the entity that lives.
  unfoldable pub Got : String → ℕ × Module C → Type 0
  Got id r =
      IsSingle r.1
      × (r.0 < r.1.created)
      × ((r.1.runner r.0).terminated ≡ false)
      × ((r.1.runner r.0).entity_id ≡ id)

  create-Got : (id : String) (m : Module C) → IsSingle m → IsVacant id m → Got id (create id m)
  unfolding Got create fresh IsSingle
  create-Got id m single vacant =
      let same =
        put_same m.created m.created (fresh id) m.runner ((==_iff m.created m.created).1 refl) in
      (
        (create-IsRegistered id m single vacant, create-IsOwned id m single),
        omega arith,
        ap (λ x. x.terminated) same,
        ap (λ x. x.entity_id) same,
      )

  kept-Got :
      (n : ℕ) (id : String) (m : Module C)
      → get m.entities id ≡ some n
      → IsSingle m
      → (m.runner n).terminated ≡ false
      → Got id (n, m)
  unfolding Got IsSingle IsOwned
  kept-Got n id m at (registered, owned) live =
      ((registered, owned), (owned id n at).0, live, (owned id n at).1)

  pub get_or_create_at-Got :
      (o : Option ℕ) (id : String) (m : Module C)
      → get m.entities id ≡ o
      → IsSingle m
      → Got id (get_or_create_at o id m)
  unfolding get_or_create_at IsVacant
  get_or_create_at-Got none id m at single =
      create-Got id m single (λ k e. absurd (none≢index k (sym at ∙ e)))
  get_or_create_at-Got (some n) id m at single = elim (Bool-cases (m.runner n).terminated) [
    | inl e ↦ subst (Got id) (sym (if_true (m.runner n).terminated (create id m) (n, m) e)) (
        create-Got id m single
          (λ k f. ap (λ j. (m.runner j).terminated) (sym ((some_inj).0 (sym at ∙ f))) ∙ e))
    | inr e ↦
        subst (Got id) (sym (if_false (m.runner n).terminated (create id m) (n, m) e))
          (kept-Got n id m at single e)
  ]

  pub offer-IsSingle :
      (message : Message C) (r : ℕ × Module C) → IsSingle r.1 → IsSingle (offer message r)
  offer-IsSingle message r single =
      Same-IsSingle r.1 (offer message r) (offer-Same message r.0 r.1) single

  pub offer_all-IsSingle :
      (message : Message C) (ns : List ℕ) (m : Module C)
      → IsSingle m
      → IsSingle (offer_all message ns m)
  unfolding offer_all
  offer_all-IsSingle message [] m single = single
  offer_all-IsSingle message (n ∷ ns) m single =
      offer_all-IsSingle message ns (offer message (n, m)) (offer-IsSingle message (n, m) single)
