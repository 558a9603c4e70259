-- ===== src/Builder/Decimal.antt =====
-- The numbers in the step ids of packages/domain/services/operation_plan_builder.py.
use Prim.Native.Char.{Char, code}
use gis_agent.Prelude.{
  ℕ, zero, suc, ◌+◌, ◌-◌, ◌*◌, ◌/◌, ◌%◌, ◌<◌, ◌≤◌, String, true, ◌&&◌, ltb, leb, ltb→lt,
  if◌then◌else◌, arith, ◌≡◌, refl, ap, ◌∙◌, inl, inr, Bool-cases,
}

-- The character of a digit.
unfoldable pub digit : ℕ → Char
digit zero = "0"
digit (suc zero) = "1"
digit (suc (suc zero)) = "2"
digit (suc (suc (suc zero))) = "3"
digit (suc (suc (suc (suc zero)))) = "4"
digit (suc (suc (suc (suc (suc zero))))) = "5"
digit (suc (suc (suc (suc (suc (suc zero)))))) = "6"
digit (suc (suc (suc (suc (suc (suc (suc zero))))))) = "7"
digit (suc (suc (suc (suc (suc (suc (suc (suc zero)))))))) = "8"
digit d = "9"

-- The decimal digits of `n`, in front of `rest`. The fuel is more than `n`.
unfoldable pub decimal_onto : ℕ → ℕ → String → String
unfolding digit
decimal_onto zero n rest = rest
decimal_onto (suc fuel) n rest =
    let more = String.◌∷◌ (digit (n % 10)) rest in
    let longer = decimal_onto fuel (n / 10) more in if ltb n 10 then more else longer

-- `str(n)`, in front of a text.
unfoldable pub decimal : ℕ → String → String
unfolding decimal_onto
decimal n rest = decimal_onto (suc n) n rest

-- The number at the start of a text, read on from `n`.
unfoldable pub read_on : ℕ → String → ℕ
read_on n String.[] = n
read_on n (String.◌∷◌ c s) =
    let later = read_on (n * 10 + (code c - 48)) s in
    if leb 48 (code c) && leb (code c) 57 then later else n

code-digit : (d : ℕ) → d < 10 → code (digit d) ≡ 48 + d
unfolding digit
code-digit zero small = refl
code-digit (suc zero) small = refl
code-digit (suc (suc zero)) small = refl
code-digit (suc (suc (suc zero))) small = refl
code-digit (suc (suc (suc (suc zero)))) small = refl
code-digit (suc (suc (suc (suc (suc zero))))) small = refl
code-digit (suc (suc (suc (suc (suc (suc zero)))))) small = refl
code-digit (suc (suc (suc (suc (suc (suc (suc zero))))))) small = refl
code-digit (suc (suc (suc (suc (suc (suc (suc (suc zero)))))))) small = refl
code-digit (suc (suc (suc (suc (suc (suc (suc (suc (suc zero))))))))) small = refl
code-digit (suc (suc (suc (suc (suc (suc (suc (suc (suc (suc d)))))))))) small =
    absurd (omega (arith, small))

read_on-digit :
    (n d : ℕ) (rest : String)
    → d < 10
    → read_on n (String.◌∷◌ (digit d) rest) ≡ read_on (n * 10 + d) rest
unfolding read_on
read_on-digit n d rest small =
    let passes : (leb 48 (48 + d) && leb (48 + d) 57) ≡ true = ground (arith, small) in
    let same : n * 10 + (48 + d - 48) ≡ n * 10 + d = omega arith in
    rw (code-digit d small, passes) (ap (λ (m : ℕ). read_on m rest) same)

read_on-decimal_onto :
    (fuel n : ℕ) (rest : String) → n < fuel → read_on 0 (decimal_onto fuel n rest) ≡ read_on n rest
unfolding decimal_onto
read_on-decimal_onto zero n rest enough = elim enough [ ]
read_on-decimal_onto (suc fuel) n rest enough = elim (Bool-cases (ltb n 10)) [
  | inl small ↦
      let last : n % 10 ≡ n = omega (arith, ltb→lt n 10 small) in
      rw (small, last)
        (read_on-digit 0 n rest (ltb→lt n 10 small) ∙ ap (λ (m : ℕ). read_on m rest) (omega arith))
  | inr big ↦
      let larger : 10 ≤ n = ground (arith, big) in
      let whole : n / 10 * 10 + n % 10 ≡ n = omega arith in
      rw big (
        read_on-decimal_onto fuel (n / 10) (String.◌∷◌ (digit (n % 10)) rest)
          (omega (arith, larger, enough))
        ∙ read_on-digit (n / 10) (n % 10) rest (omega arith)
        ∙ ap (λ (m : ℕ). read_on m rest) whole)
]

-- The number in front of a text that starts with an underscore.
pub read_on-decimal : (n : ℕ) (rest : String) → read_on 0 (decimal n (String.◌∷◌ "_" rest)) ≡ n
unfolding decimal read_on
read_on-decimal n rest = read_on-decimal_onto (suc n) n (String.◌∷◌ "_" rest) (omega arith)
