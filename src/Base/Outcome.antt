-- ===== src/Base/Outcome.antt =====
-- The outcome of a call: a value, the program's end by `err`, undefined behaviour, or a
-- recursion that used up the fuel of the model.

-- The messages that the modelled code hands to `err`.
pub data Message : Type 0 where
  non_signal_input undefined_gate null_gate invalid_signal_count undefined_result connecting_fail
        no_fan_in :
      Message

pub data Run {ℓ} (A : Type ℓ) : Type ℓ where
  ok : A → Run A
  err : Message → Run A
  undefined out_of_fuel : Run A

infixl 5 ◌>>=◌
abbrev pub ◌>>=◌ {ℓ κ} : {A : Type ℓ} {B : Type κ} → Run A → (A → Run B) → Run B
ok a >>= f = f a
err m >>= f = err m
undefined >>= f = undefined
out_of_fuel >>= f = out_of_fuel
