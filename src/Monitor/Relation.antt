-- ===== src/Monitor/Relation.antt =====
-- `InvariantMonitor` and `MetamorphicMonitor` of src/ooptdd/engine/monitor.py. They never latch.
use ooptdd.Base.{
  Bool, false, ◌&&◌, ◌||◌, Option, none, some, ℤ, String, str_eq, ◌==◌, if◌then◌else◌, Result, ok,
  raise, Error, ◌>>=◌,
}
use ooptdd.Value.{Float, Number, float, Op, le, ge, apply_op, Event}
use ooptdd.Builtins.{Builtins}
use ooptdd.Match.{ops}
use ooptdd.Monitor.Verdicts.{Latch}
use ooptdd.Monitor.Reduce.{Side, take_event, reduce_side}

pub record InvariantMonitor : Type 0 where
  pub latched : Latch
  pub left : Side
  pub right : Side
  pub op : String
  pub tol : Float

pub record MetamorphicMonitor : Type 0 where
  pub latched : Latch
  pub a : Side
  pub b : Side
  pub relation : String
  pub factor : Float
  pub tol : Float

-- `InvariantMonitor.step`
unfoldable pub step_invariant : InvariantMonitor → Event → ℤ → Result InvariantMonitor
step_invariant m ev idx = do
  l ← take_event m.left ev
  r ← take_event m.right ev
  ok (record m { left = l; right = r })

-- `MetamorphicMonitor.step`
unfoldable pub step_metamorphic : MetamorphicMonitor → Event → ℤ → Result MetamorphicMonitor
step_metamorphic m ev idx = do
  x ← take_event m.a ev
  y ← take_event m.b ev
  ok (record m { a = x; b = y })

-- The two values, where both sides have evidence
abbrev pub evidence : Side → Side → Option Number → Option Number → Option (Number × Number)
evidence s t (some x) (some y) = if (s.n == 0) || (t.n == 0) then none else some (x, y)
evidence s t _ _ = none

-- `abs(x - y) <= tol`
abbrev close : Builtins → Number → Number → Float → Bool
close py x y tol = apply_op le (py.magnitude (py.minus x y)) (float tol)

abbrev test_ops : Option Op → Number → Number → Result Bool
test_ops none x y = raise Error.key_error
test_ops (some op) x y = ok (apply_op op x y)

abbrev pub invariant_holds :
    Builtins → InvariantMonitor → Option (Number × Number) → Bool → Result Bool
invariant_holds py m none reachable = ok false
invariant_holds py m (some (x, y)) reachable =
    (if str_eq m.op "==" then ok (close py x y m.tol) else test_ops (ops m.op) x y) >>= λ p.
    ok (reachable && p)

-- The entry `passed` of `InvariantMonitor.collapse`
unfoldable pub passed_invariant : Builtins → InvariantMonitor → Bool → Result Bool
unfolding ops
passed_invariant py m reachable = do
  x ← reduce_side py m.left
  y ← reduce_side py m.right
  invariant_holds py m (evidence m.left m.right x y) reachable

-- The ladder of relations; `idempotent` is another name of `equal`.
unfoldable pub relates : Builtins → MetamorphicMonitor → Number → Number → Bool
relates py m x y =
    if str_eq m.relation "equal" || str_eq m.relation "idempotent"
    then close py x y m.tol
    else if str_eq m.relation "scaled"
    then close py y (py.product (float m.factor) x) m.tol
    else if str_eq m.relation "subset"
    then apply_op le y (py.plus x (float m.tol))
    else if str_eq m.relation "monotone"
    then apply_op ge y (py.minus x (float m.tol))
    else false

abbrev pub metamorphic_holds :
    Builtins → MetamorphicMonitor → Option (Number × Number) → Bool → Result Bool
metamorphic_holds py m none reachable = ok false
metamorphic_holds py m (some (x, y)) reachable = ok (reachable && relates py m x y)

-- The entry `passed` of `MetamorphicMonitor.collapse`
unfoldable pub passed_metamorphic : Builtins → MetamorphicMonitor → Bool → Result Bool
unfolding relates
passed_metamorphic py m reachable = do
  x ← reduce_side py m.a
  y ← reduce_side py m.b
  metamorphic_holds py m (evidence m.a m.b x y) reachable
