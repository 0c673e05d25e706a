-- ===== src/Runtime/Tests.antt =====
-- One category with an entity that stops and is told again.
use teob_ts.Common.{ℕ, false, List, [], ◌∷◌, ◌++◌, ◌≡◌, refl, arith}
use teob_ts.Common.Maps.{get, set, delete}
use teob_ts.Entity.Types.{Message, tell}
use teob_ts.Runtime.{
  Module, new_module, module_tell, terminated, runtime_tell, category_not_found, Reachable,
  at_first, next, tells, terminates,
}
use teob_ts.Runtime.Writers.{Reachable-one_writer, module_tell-delivered}

-- The command 1 is told, the runner ends, and 2 is told.
abbrev again : Module ℕ
unfolding module_tell terminated
again = module_tell "7" 2 (terminated 0 (module_tell "7" 1 new_module))

again-Reachable : Reachable again
unfolding again
again-Reachable = next (next (next at_first (tells "7" 1)) (terminates 0)) (tells "7" 2)

second_runner : (again.runner 1).offered ≡ tell 2 ∷ []
unfolding again get set delete module_tell
second_runner = refl

unknown_category : runtime_tell {C = ℕ} "orders" "7" 1 [] ≡ category_not_found "orders"
unfolding runtime_tell get
unknown_category = refl

Reachable-one_writer_example : ◌≡◌ {A = ℕ} 1 1
unfolding again get set delete module_tell
Reachable-one_writer_example =
    Reachable-one_writer 1 1 again-Reachable (omega arith) (omega arith) refl refl refl

module_tell-delivered_example :
    (n : ℕ) × (((module_tell "7" 3 again).runner n).terminated ≡ false)
    × (((module_tell "7" 3 again).runner n).entity_id ≡ "7")
    × (earlier : List (Message ℕ)) × (((module_tell "7" 3 again).runner n).offered
        ≡ earlier ++ tell 3 ∷ [])
module_tell-delivered_example = module_tell-delivered "7" 3 again-Reachable
