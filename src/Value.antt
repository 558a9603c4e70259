-- ===== src/Value.antt =====
-- The values of Python's `Any` that reach the plan guard: what JSON can hold. A float is a decimal
-- literal, `float m k` for m / 10 ^ k.
use gis_agent.Prelude.{ℕ, String, Bool, true, false, not}
use gis_agent.Prelude.Int.{ℤ, is_zero}
use gis_agent.Prelude.Text.{non_empty, strip}

mutual
  pub data Value : Type 0 where
    str : (text : String) → Value
    boolean : (holds : Bool) → Value
    int : (n : ℤ) → Value
    float : (mantissa : ℤ) (places : ℕ) → Value
    dict : Fields → Value
    list : Items → Value
    null : Value

  pub data Fields : Type 0 where
    no_fields : Fields
    entry : (key : String) → Value → Fields → Fields

  pub data Items : Type 0 where
    no_items : Items
    item : Value → Items → Items

-- `bool(value)`
unfoldable pub truthy : Value → Bool
truthy null = false
truthy (boolean b) = b
truthy (int n) = not (is_zero n)
truthy (float m k) = not (is_zero m)
truthy (str s) = non_empty s
truthy (list no_items) = false
truthy (list (item v vs)) = true
truthy (dict no_fields) = false
truthy (dict (entry k v fs)) = true

-- `bool(str(value or "").strip())`: what is no text prints as something that is not blank.
unfoldable pub shows_text : Value → Bool
unfolding truthy strip
shows_text (str s) = non_empty (strip s)
shows_text null = false
shows_text v = truthy v
