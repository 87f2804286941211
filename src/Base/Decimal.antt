-- ===== src/Base/Decimal.antt =====
-- `strconv.Itoa` and `strconv.Atoi` of Go's int, which has 64 bits.
pub mod RoundTrip
use ae_ro_go.Base.Tests.{ltb, ◌==◌, if◌then◌else◌}
use ae_ro_go.Base.Text.{Bytes, codes}
use ae_ro_go.Base.Int.{ℤ, pos, negsuc, sub_ℕ}
use Prim.Native.Nat.{ℕ, zero, suc, ◌+◌, ◌-◌, ◌*◌, ◌/◌, ◌%◌, ◌^◌, ◌<◌}
use mathlib.Core.Path.{◌≡◌, refl}
use mathlib.Core.Bool.{◌||◌}
use mathlib.Core.Option.{Option, none, some}
use mathlib.Core.List.{[], ◌∷◌}
use mathlib.Core.Logic.{dite}
use mathlib.Core.WellFounded.{Acc, WellFounded}
use native.Mathlib.Decide.{dec_lt}
use native.Mathlib.Omega.{arith}

Acc-below : (k n : ℕ) → n < k → Acc ◌<◌ n
Acc-below zero n h = elim h [ ]
Acc-below (suc k) n h = Acc.intro n (λ m hm. Acc-below k m (omega arith))

lt_wf : WellFounded ◌<◌
unfolding Acc-below
lt_wf = record { apply = λ n. Acc-below (suc n) n (omega arith) }

tenth-lt : (n : ℕ) → 0 < n → n / 10 < n
tenth-lt n h = omega arith

-- The digits of `n` in front of `out`; none for 0.
digits : (n : ℕ) → Acc ◌<◌ n → Bytes → Bytes
digits n (Acc.intro _ smaller) out =
    dite (dec_lt 0 n)
      (λ h. digits (n / 10) (smaller (n / 10) (tenth-lt n h)) ((b'0' + n % 10) ∷ out)) (λ _. out)

unfoldable pub utoa : ℕ → Bytes
unfolding digits lt_wf dec_lt tenth-lt
utoa n = if n == 0 then b'0' ∷ [] else digits n (lt_wf.apply n) []

-- `Itoa`
unfoldable pub itoa : ℤ → Bytes
unfolding utoa
itoa (pos n) = utoa n
itoa (negsuc n) = b'-' ∷ utoa (suc n)

-- The digits behind `n`; `none` at any other byte.
digits_value : ℕ → Bytes → Option ℕ
digits_value n [] = some n
digits_value n (c ∷ s) =
    if ltb c b'0' || ltb b'9' c then none else digits_value (n * 10 + (c - b'0')) s

-- A magnitude within int64, by the sign.
in_range : (Option ℕ) → Option ℤ
in_range none = none
in_range (some n) = if ltb n (2 ^ 63) then some (pos n) else none

in_range_neg : (Option ℕ) → Option ℤ
in_range_neg none = none
in_range_neg (some n) = if ltb (2 ^ 63) n then none else some (sub_ℕ 0 n)

unsigned : Bytes → Option ℕ
unfolding digits_value
unsigned [] = none
unsigned (c ∷ s) = digits_value 0 (c ∷ s)

-- `Atoi`; `none` is any error.
unfoldable pub atoi : Bytes → Option ℤ
unfolding unsigned in_range in_range_neg
atoi [] = none
atoi (c ∷ s) =
    if c == b'-'
    then in_range_neg (unsigned s)
    else if c == b'+'
    then in_range (unsigned s)
    else in_range (unsigned (c ∷ s))

-- What stands beside an error of the range: the nearest number of the range.
clamp : (Option ℕ) → ℤ
clamp none = pos 0
clamp (some n) = if ltb n (2 ^ 63) then pos n else pos (2 ^ 63 - 1)

clamp_neg : (Option ℕ) → ℤ
clamp_neg none = pos 0
clamp_neg (some n) = if ltb (2 ^ 63) n then sub_ℕ 0 (2 ^ 63) else sub_ℕ 0 n

-- The first result of `Atoi`, also beside an error: 0 for a text that is no number.
unfoldable pub atoi_value : Bytes → ℤ
unfolding unsigned clamp clamp_neg
atoi_value [] = pos 0
atoi_value (c ∷ s) =
    if c == b'-'
    then clamp_neg (unsigned s)
    else if c == b'+'
    then clamp (unsigned s)
    else clamp (unsigned (c ∷ s))

atoi_signs : atoi (codes "-42") ≡ some (negsuc 41)
unfolding atoi
atoi_signs = refl

atoi_wide : atoi (codes "9223372036854775808") ≡ none
unfolding atoi
atoi_wide = refl

itoa_port : itoa (pos 30000) ≡ codes "30000"
unfolding itoa
itoa_port = refl
