-- ===== src/Strategy/Edit/Leaves.antt =====
-- What `newCondition` and `patchCond` make of a condition.
use polyquantlab.Common.{
  ◌≡◌, refl, Bool, true, false, Option, none, some, inl, inr, ◌⊎◌, Bool-cases, String,
}
use mathlib.Core.Option
use polyquantlab.Strategy.Params.{
  ConditionType, token_price, TokenSide, yes_side, Number, ParamSpec, includes, param_specs,
  includes-default_op,
}
use polyquantlab.Strategy.Tree.{Condition, new_condition}
use polyquantlab.Strategy.Edit.{Patch, merge, reset_fields, repair_op, patch_leaf}

abbrev pub present {ℓ} : {A : Type ℓ} → Option A → Bool
present none = false
present (some a) = true

-- The operator is one that the parameter allows.
abbrev pub HasValidOp : Condition → Type 0
HasValidOp c = includes (param_specs c.type).valid_ops c.op ≡ true

-- The side and the window are there just where the parameter has them.
abbrev pub HasFields : Condition → Type 0
HasFields c =
    (present c.side ≡ (param_specs c.type).has_side)
    × (present c.window_sec ≡ (param_specs c.type).needs_window)

pub new_condition-HasValidOp :
    (id : String) (t : ConditionType) (side : TokenSide) → HasValidOp (new_condition id t side)
unfolding new_condition
new_condition-HasValidOp id t side = includes-default_op t

pub new_condition-HasFields :
    (id : String) (t : ConditionType) (side : TokenSide) → HasFields (new_condition id t side)
unfolding new_condition
new_condition-HasFields id token_price side = (refl, refl)
new_condition-HasFields id _ side = (refl, refl)

repair_op-HasValidOp : (c : Condition) → HasValidOp (repair_op c)
repair_op-HasValidOp c = elim (Bool-cases (includes (param_specs c.type).valid_ops c.op)) [
  | inl e ↦ rw e e
  | inr e ↦ rw e (includes-default_op c.type)
]

repair_op-HasFields : (c : Condition) → HasFields c → HasFields (repair_op c)
repair_op-HasFields c h = elim (Bool-cases (includes (param_specs c.type).valid_ops c.op)) [
  | inl e ↦ rw e h
  | inr e ↦ rw e h
]

-- Whatever the patch, the operator of the patched condition is one that its parameter allows.
pub patch_leaf-HasValidOp : (p : Patch) (c : Condition) → HasValidOp (patch_leaf p c)
unfolding patch_leaf
patch_leaf-HasValidOp p c = repair_op-HasValidOp (reset_fields p.type (merge c p))

-- The fields that a row of the builder offers: a side only where the parameter has one, a window
-- only where it needs one.
abbrev pub IsOffered : ParamSpec → Patch → Type 0
IsOffered spec p =
    ((p.side ≡ none) ⊎ ((x : TokenSide) × (p.side ≡ some (some x)) × (spec.has_side ≡ true)))
    × ((p.window_sec ≡ none)
        ⊎ ((w : Number) × (p.window_sec ≡ some (some w)) × (spec.needs_window ≡ true)))

merge-HasFields :
    (p : Patch) (c : Condition)
    → p.type ≡ none
    → IsOffered (param_specs c.type) p
    → HasFields c
    → HasFields (merge c p)
merge-HasFields p c e (s, w) (hs, hw) = rw e (side s, window w)
  where
    side :
        (p.side ≡ none)
          ⊎ ((x : TokenSide) × (p.side ≡ some (some x)) × ((param_specs c.type).has_side ≡ true))
        → present (Option.get_or p.side c.side) ≡ (param_specs c.type).has_side
    side (inl k) = rw k hs
    side (inr (x, k, t)) = rw (k, t)

    window :
        (p.window_sec ≡ none)
          ⊎ ((n : Number) × (p.window_sec ≡ some (some n))
              × ((param_specs c.type).needs_window ≡ true))
        → present (Option.get_or p.window_sec c.window_sec) ≡ (param_specs c.type).needs_window
    window (inl k) = rw k hw
    window (inr (x, k, t)) = rw (k, t)

-- A patch that a row of the builder offers keeps a side and a window just where the parameter of
-- the condition has them, whether or not it changes the parameter.
pub patch_leaf-HasFields :
    (p : Patch) (c : Condition)
    → IsOffered (param_specs c.type) p
    → HasFields c
    → HasFields (patch_leaf p c)
unfolding patch_leaf new_condition
patch_leaf-HasFields p c o h =
    repair_op-HasFields (reset_fields p.type (merge c p)) (reset p.type refl)
  where
    reset : (t : Option ConditionType) → p.type ≡ t → HasFields (reset_fields t (merge c p))
    reset none e = merge-HasFields p c e o h
    reset (some t) e = rw e (new_condition-HasFields c.id t yes_side)
