-- ===== src/Runtime.antt =====
-- The in-memory runtime: src/inmem/runtime.ts. It creates the runners of entities (Entity has what a
-- runner does) and gives them messages. A runner that was replaced goes on to exist, so the runners
-- of a category are numbered in the order of their creation.
pub mod Single
pub mod Writers
mod Tests
use teob_ts.Common.{
  ℕ, suc, ◌<◌, String, Option, none, some, Bool, true, false, List, [], ◌∷◌, ◌++◌, ◌==◌, ◌≡◌,
  if◌then◌else◌,
}
use teob_ts.Common.Maps.{Map, get, set, delete, values}
use teob_ts.Entity.Types.{Message, tell, ask, stop}

-- What the runtime sees of a runner: its entity, `isTerminated()` and the messages it was offered.
pub record Incarnation (C : Type 0) : Type 0 where
  pub entity_id : String
  pub terminated : Bool
  pub offered : List (Message C)

-- One category: `entities`, and all runners that were ever created.
pub record Module (C : Type 0) : Type 0 where
  pub entities : Map ℕ
  pub created : ℕ
  pub runner : ℕ → Incarnation C

abbrev pub put_runner : {C : Type 0} → ℕ → Incarnation C → (ℕ → Incarnation C) → ℕ → Incarnation C
put_runner n x runner k = if k == n then x else runner k

abbrev pub is_index : ℕ → Option ℕ → Bool
is_index n none = false
is_index n (some k) = k == n

module _ {C : Type 0} where
  abbrev pub new_module : Module C
  new_module = record {
    entities = [];
    created = 0;
    runner = λ n. record { entity_id = ""; terminated = true; offered = [] };
  }

  unfoldable pub create : String → Module C → ℕ × Module C
  create entity_id m = (
    m.created,
    record {
      entities = set m.entities entity_id m.created;
      created = suc m.created;
      runner =
          put_runner m.created (record { entity_id = entity_id; terminated = false; offered = [] })
            m.runner;
    },
  )

  unfoldable pub get_or_create_at : Option ℕ → String → Module C → ℕ × Module C
  unfolding create
  get_or_create_at none entity_id m = create entity_id m
  get_or_create_at (some n) entity_id m =
      if (m.runner n).terminated then create entity_id m else (n, m)

  unfoldable pub get_or_create : String → Module C → ℕ × Module C
  unfolding get_or_create_at
  get_or_create entity_id m = get_or_create_at (get m.entities entity_id) entity_id m

  -- `entity.mailbox.offer(message)`
  unfoldable pub offer : Message C → ℕ × Module C → Module C
  offer message (n, m) =
      let x = m.runner n in
      record m { runner = put_runner n (record x { offered = x.offered ++ message ∷ [] }) m.runner }

  unfoldable pub module_tell : String → C → Module C → Module C
  unfolding offer get_or_create
  module_tell entity_id command m = offer (tell command) (get_or_create entity_id m)

  -- `ask_id` stands for the promise of the answer.
  unfoldable pub module_ask : String → C → ℕ → Module C → Module C
  unfolding offer get_or_create
  module_ask entity_id command ask_id m = offer (ask command ask_id) (get_or_create entity_id m)

  -- A runner terminates, and calls `onTerminate`.
  unfoldable pub terminated : ℕ → Module C → Module C
  terminated n m =
      let x = m.runner n in
      record m {
        runner = put_runner n (record x { terminated = true }) m.runner;
        entities =
            if is_index n (get m.entities x.entity_id)
            then delete m.entities x.entity_id
            else m.entities;
      }

  unfoldable pub offer_all : Message C → List ℕ → Module C → Module C
  unfolding offer
  offer_all message [] m = m
  offer_all message (n ∷ ns) m = offer_all message ns (offer message (n, m))

  -- The first half of `shutdown`: every runner that is registered is told to stop.
  unfoldable pub stop_all : Module C → Module C
  unfolding offer_all
  stop_all m = offer_all stop (values m.entities) m

  -- The second half, once the runners that were told to stop have.
  unfoldable pub clear_entities : Module C → Module C
  clear_entities m = record m { entities = [] }

  -- What happens to a category. The entities are cleared when no runner is left that lives: it is
  -- assumed that nothing is told to an entity while the runtime shuts down.
  pub data Happens : Module C → Module C → Type 0 where
    tells :
        {m : Module C} (entity_id : String) (command : C)
        → Happens m (module_tell entity_id command m)
    asks :
        {m : Module C} (entity_id : String) (command : C) (ask_id : ℕ)
        → Happens m (module_ask entity_id command ask_id m)
    terminates : {m : Module C} (n : ℕ) → Happens m (terminated n m)
    stops : {m : Module C} → Happens m (stop_all m)
    clears :
        {m : Module C}
        → ((n : ℕ) → n < m.created → (m.runner n).terminated ≡ true)
        → Happens m (clear_entities m)

  pub data Reachable : Module C → Type 0 where
    at_first : Reachable new_module
    next : {m m' : Module C} → Reachable m → Happens m m' → Reachable m'

-- What the runtime answers at once where it knows no category.
pub data Routed (A : Type 0) : Type 0 where
  routed : A → Routed A
  category_not_found : String → Routed A

unfoldable pub route :
    {C : Type 0} → String → (Module C → Module C) → Map (Module C) → Routed (Map (Module C))
route category go modules = elim (get modules category) [
  | none ↦ category_not_found category
  | some m ↦ routed (set modules category (go m))
]

unfoldable pub runtime_tell :
    {C : Type 0} → String → String → C → Map (Module C) → Routed (Map (Module C))
unfolding route module_tell
runtime_tell category entity_id command = route category (module_tell entity_id command)

unfoldable pub runtime_ask :
    {C : Type 0} → String → String → C → ℕ → Map (Module C) → Routed (Map (Module C))
unfolding route module_ask
runtime_ask category entity_id command ask_id = route category (module_ask entity_id command ask_id)
