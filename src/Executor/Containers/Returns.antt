-- ===== src/Executor/Containers/Returns.antt =====
-- Postconditions of the manager's operations, with a rule for each way to build an operation.
use rogue_learn_code_battle.Base.{◌≡◌, refl, Option, some}
use rogue_learn_code_battle.Executor.Containers.Defs.{Manager, Op, ◌>>=◌}

-- The operation does not block, and what it returns satisfies `P`.
pub record Returns {W A : Type 0} (P : A → Manager W → Type 0) (r : Option (A × Manager W))
    : Type 0 where
  pub value : A
  pub state : Manager W
  pub is : r ≡ some (value, state)
  pub holds : P value state

module _ {W A : Type 0} {P : A → Manager W → Type 0} where
  pub Returns-some : (a : A) (d : Manager W) → P a d → Returns P (some (a, d))
  Returns-some a d h = record { value = a; state = d; is = refl; holds = h }

  pub Returns-weaken :
      {Q : A → Manager W → Type 0} {r : Option (A × Manager W)}
      → Returns P r
      → ((a : A) (d : Manager W) → P a d → Q a d)
      → Returns Q r
  Returns-weaken t f = record {
    value = t.value;
    state = t.state;
    is = t.is;
    holds = f t.value t.state t.holds;
  }

  pub Returns-bind :
      {B : Type 0} {Q : B → Manager W → Type 0} (m : Op W A) (f : A → Op W B) (d : Manager W)
      → Returns P (m d)
      → ((a : A) (d' : Manager W) → P a d' → Returns Q (f a d'))
      → Returns Q ((m >>= f) d)
  Returns-bind m f d t k =
      let u = k t.value t.state t.holds in
      record { value = u.value; state = u.state; is = rw (t.is, ◌>>=◌) u.is; holds = u.holds }

-- A step of a block that returns leaves the rest of the block.
pub bind-some :
    {W A B : Type 0} (m : Op W A) (f : A → Op W B) {d d' : Manager W} {a : A}
    → m d ≡ some (a, d')
    → (m >>= f) d ≡ f a d'
bind-some m f e = rw (e, ◌>>=◌)
