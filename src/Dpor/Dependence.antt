-- ===== src/Dpor/Dependence.antt =====
-- The dependency test of src/dpor.c.
use chibios_smash.Base.{ℤ, eqb_ℤ→eq, is_negative, ◌≡◌, ◌↔◌, true, false, ◌&&◌, arith}
use chibios_smash.Types.{ActionType}
use chibios_smash.Dpor.{is_idle_action, dependent}

pub record AreDependent (a_type : ActionType) (a_res : ℤ) (b_type : ActionType) (b_res : ℤ)
    : Type 0 where
  same_resource : a_res ≡ b_res
  proper_resource : is_negative a_res ≡ false
  not_idle : (is_idle_action a_type && is_idle_action b_type) ≡ false

-- Two actions are dependent exactly if they name the same resource, one with an id that is not
-- negative, and they are not both a yield or a nop.
pub dependent_iff :
    (a : ActionType) (a_res : ℤ) (b : ActionType) (b_res : ℤ)
    → (dependent a a_res b b_res ≡ true) ↔ AreDependent a a_res b b_res
unfolding dependent
dependent_iff a a_res b b_res = (
  λ h. record {
    same_resource = eqb_ℤ→eq a_res b_res (ground arith);
    proper_resource = ground arith;
    not_idle = ground arith;
  },
  λ h. ground (arith, h.same_resource, h.proper_resource, h.not_idle),
)

-- The dependency test gives the same for two actions in either order.
pub dependent_symm :
    (a : ActionType) (a_res : ℤ) (b : ActionType) (b_res : ℤ)
    → dependent a a_res b b_res ≡ dependent b b_res a a_res
unfolding dependent
dependent_symm a a_res b b_res = ground arith
