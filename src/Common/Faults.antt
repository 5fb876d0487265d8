-- ===== src/Common/Faults.antt =====
-- How a run of the code can end: with a value, or with a fault.

-- `terminated`: a failed ASSERT_CONDITION, FATAL, or an exception that leaves a `noexcept` function.
-- `undefined`: a null or dangling dereference, or an index out of range.
-- `out_of_fuel`: the model's bound on a loop's rounds was too small.
pub data Fault : Type 0 where
  terminated undefined out_of_fuel : Fault

pub data Result {ℓ} (V : Type ℓ) : Type ℓ where
  ok : V → Result V
  fail : Fault → Result V

-- The next step runs on the value of the one before; a fault ends the chain.
infixl 5 ◌>>=◌
abbrev pub ◌>>=◌ {ℓ κ} : {V : Type ℓ} {W : Type κ} → Result V → (V → Result W) → Result W
◌>>=◌ step next = elim step [ fail fault ↦ fail fault | ok value ↦ next value ]
