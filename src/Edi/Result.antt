-- ===== src/Edi/Result.antt =====
-- What a call of lib/edioutput, or of its caller, ends in: a value, or the exception that it
-- throws. Two outcomes are no exceptions of the source: a division by zero, which is undefined, and a
-- loop without end.

pub data Error : Type 0 where
  protocol_length invalid_tpl invalid_sad invalid_scid : Error
  invalid_rfa invalid_tid invalid_tidext invalid_stid : Error
  both_used : Error
  chunk_size_too_large chunk_length_too_large : Error
  division_by_zero endless : Error
  superframe_size : Error

pub data Result {ℓ} (Value : Type ℓ) : Type ℓ where
  err : Error → Result Value
  ok : Value → Result Value

-- What follows a call that throws is not run.
infixl 5 ◌>>=◌
abbrev pub ◌>>=◌ {ℓ κ} :
    {Value : Type ℓ} {Next : Type κ} → Result Value → (Value → Result Next) → Result Next
err thrown >>= next = err thrown
ok value >>= next = next value
