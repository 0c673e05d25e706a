-- ===== src/Runtime/Writers.antt =====
-- One writer for each entity, and messages for the living only.
use mathlib.Core.Option.{some_inj}
use mathlib.Core.Bool.{true≢false}
use teob_ts.Common.{
  ℕ, ◌<◌, String, none, some, true, false, List, [], ◌∷◌, ◌++◌, ◌==◌, ◌≡◌, refl, sym, ap, ◌∙◌,
  arith, if_true, if_false, ==_iff, str_eq, inl, inr, Bool-cases,
}
use teob_ts.Common.Maps.{Map, get, delete, values, get-delete}
use teob_ts.Entity.Types.{Message, tell, ask, stop}
use teob_ts.Runtime.{
  Incarnation, Module, put_runner, get_or_create_at, get_or_create, offer, module_tell, module_ask,
  terminated, is_index, stop_all, clear_entities, Happens, tells, asks, terminates, stops, clears,
  Reachable, at_first, next,
}
use teob_ts.Runtime.Single.{
  IsRegistered, IsOwned, IsSingle, Got, get_or_create_at-Got, offer-IsSingle, offer_all-IsSingle,
  put_same, put_other, none≢index, elsewhere,
}

still : (m : Map ℕ) (a id : String) (k : ℕ) → get (delete m a) id ≡ some k → get m id ≡ some k
still m a id k at = elim (Bool-cases (str_eq a id)) [
  | inl e ↦
      absurd (none≢index k (sym (get-delete m a id ∙ if_true (str_eq a id) none (get m id) e) ∙ at))
  | inr e ↦ sym (get-delete m a id ∙ if_false (str_eq a id) none (get m id) e) ∙ at
]

module _ {C : Type 0} where
  -- The entry that is deleted is that of the runner that terminates.
  kept :
      (n : ℕ) (m : Module C) (id : String) (k : ℕ)
      → get m.entities id ≡ some k
      → (k == n) ≡ false
      → get (terminated n m).entities id ≡ some k
  unfolding terminated
  kept n m id k at ne = elim (Bool-cases (is_index n (get m.entities (m.runner n).entity_id))) [
    | inr e ↦
        ap (λ e'. get e' id)
          (if_false (is_index n (get m.entities (m.runner n).entity_id)) _ m.entities e)
        ∙ at
    | inl e ↦
        ap (λ e'. get e' id)
          (if_true (is_index n (get m.entities (m.runner n).entity_id))
            (delete m.entities (m.runner n).entity_id) m.entities e)
        ∙ get-delete m.entities (m.runner n).entity_id id
        ∙ if_false (str_eq (m.runner n).entity_id id) none (get m.entities id) (
            elsewhere (m.runner n).entity_id id
              (λ same. true≢false (sym e ∙ ap (is_index n) (ap (get m.entities) same ∙ at) ∙ ne)))
        ∙ at
  ]

  was :
      (n : ℕ) (m : Module C) (id : String) (k : ℕ)
      → get (terminated n m).entities id ≡ some k
      → get m.entities id ≡ some k
  unfolding terminated
  was n m id k at = elim (Bool-cases (is_index n (get m.entities (m.runner n).entity_id))) [
    | inr e ↦
        sym (
          ap (λ e'. get e' id)
            (if_false (is_index n (get m.entities (m.runner n).entity_id))
              (delete m.entities (m.runner n).entity_id) m.entities e))
        ∙ at
    | inl e ↦ still m.entities (m.runner n).entity_id id k (
        sym (
          ap (λ e'. get e' id)
            (if_true (is_index n (get m.entities (m.runner n).entity_id))
              (delete m.entities (m.runner n).entity_id) m.entities e))
        ∙ at)
  ]

  ended : ℕ → Module C → Incarnation C
  ended n m = record (m.runner n) { terminated = true }

  owner :
      (n k : ℕ) (m : Module C)
      → (put_runner n (ended n m) m.runner k).entity_id ≡ (m.runner k).entity_id
  unfolding ended
  owner n k m = elim (Bool-cases (k == n)) [
    | inl e ↦
        ap (λ x. x.entity_id) (put_same n k (ended n m) m.runner e)
        ∙ ap (λ j. (m.runner j).entity_id) (sym ((==_iff k n).0 e))
    | inr ne ↦ ap (λ x. x.entity_id) (put_other n k (ended n m) m.runner ne)
  ]

  cleared :
      (m : Module C)
      → ((n : ℕ) → n < m.created → (m.runner n).terminated ≡ true)
      → IsSingle (clear_entities m)
  unfolding IsSingle IsRegistered IsOwned clear_entities get
  cleared m none_lives = (
    λ n lt live. absurd (true≢false (sym (none_lives n lt) ∙ live)),
    λ id n at. absurd (none≢index n at),
  )

  terminated-IsSingle : (n : ℕ) (m : Module C) → IsSingle m → IsSingle (terminated n m)
  unfolding IsSingle IsRegistered IsOwned terminated ended
  terminated-IsSingle n m (registered, owned) = (
    λ k lt live. elim (Bool-cases (k == n)) [
      | inl e ↦
          absurd
            (true≢false (sym (ap (λ x. x.terminated) (put_same n k (ended n m) m.runner e)) ∙ live))
      | inr ne ↦
          let same = put_other n k (ended n m) m.runner ne in
          ap (λ x. get (terminated n m).entities x.entity_id) same
          ∙ kept n m (m.runner k).entity_id k
              (registered k lt (sym (ap (λ x. x.terminated) same) ∙ live)) ne
    ],
    λ id k at. let (lt, mine) = owned id k (was n m id k at) in (lt, owner n k m ∙ mine),
  )

  Happens-IsSingle : {m m' : Module C} → Happens m m' → IsSingle m → IsSingle m'
  unfolding module_tell module_ask get_or_create stop_all Got
  Happens-IsSingle {m} (tells id command) single =
      offer-IsSingle (tell command) (get_or_create id m)
        (get_or_create_at-Got (get m.entities id) id m refl single).0
  Happens-IsSingle {m} (asks id command ask_id) single =
      offer-IsSingle (ask command ask_id) (get_or_create id m)
        (get_or_create_at-Got (get m.entities id) id m refl single).0
  Happens-IsSingle {m} (terminates n) single = terminated-IsSingle n m single
  Happens-IsSingle {m} stops single = offer_all-IsSingle stop (values m.entities) m single
  Happens-IsSingle {m} (clears none_lives) single = cleared m none_lives

  Reachable-IsSingle : {m : Module C} → Reachable m → IsSingle m
  unfolding IsSingle IsRegistered IsOwned get
  Reachable-IsSingle at_first =
      (λ n lt live. absurd (omega arith), λ id n at. absurd (none≢index n at))
  Reachable-IsSingle (next before step) = Happens-IsSingle step (Reachable-IsSingle before)

  -- Whatever is told or asked, terminates and shuts down, as long as nothing is told while the entities
  -- are cleared: two runners of the same entity that both live are the same one, so an entity has at
  -- most one writer.
  pub Reachable-one_writer :
      {m : Module C} (n k : ℕ)
      → Reachable m
      → n < m.created
      → k < m.created
      → (m.runner n).terminated ≡ false
      → (m.runner k).terminated ≡ false
      → (m.runner n).entity_id ≡ (m.runner k).entity_id
      → n ≡ k
  unfolding IsSingle IsRegistered
  Reachable-one_writer {m} n k reached lt lt' live live' same =
      let (registered, owned) = Reachable-IsSingle reached in
      (some_inj).0 (sym (registered n lt live) ∙ ap (get m.entities) same ∙ registered k lt' live')

  -- A command that is told to an entity reaches a runner of that entity that lives, as its last
  -- message: a runner that has terminated is replaced before.
  pub module_tell-delivered :
      {m : Module C} (id : String) (command : C)
      → Reachable m
      → (n : ℕ) × (((module_tell id command m).runner n).terminated ≡ false)
        × (((module_tell id command m).runner n).entity_id ≡ id)
        × (earlier : List (Message C)) × (((module_tell id command m).runner n).offered
            ≡ earlier ++ tell command ∷ [])
  unfolding module_tell get_or_create offer Got
  module_tell-delivered {m} id command reached =
      let r = get_or_create_at (get m.entities id) id m in
      let (single, lt, live, mine) =
        get_or_create_at-Got (get m.entities id) id m refl (Reachable-IsSingle reached) in
      let x : Incarnation C = record (r.1.runner r.0) {
        offered = (r.1.runner r.0).offered ++ tell command ∷ [];
      } in
      let same = put_same r.0 r.0 x r.1.runner ((==_iff r.0 r.0).1 refl) in
      (
        r.0,
        ap (λ y. y.terminated) same ∙ live,
        ap (λ y. y.entity_id) same ∙ mine,
        (r.1.runner r.0).offered,
        ap (λ y. y.offered) same,
      )
