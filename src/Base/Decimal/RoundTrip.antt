-- ===== src/Base/Decimal/RoundTrip.antt =====
-- `strconv.Itoa`: what it writes is read back, so two numbers have two texts.
use ae_ro_go.Base.Text.{Bytes}
use ae_ro_go.Base.Tests.{ltb, Bool-cases}
use ae_ro_go.Base.Int.{pos}
use ae_ro_go.Base.Lists.{All}
use ae_ro_go.Base.Decimal.{atoi_value, unsigned, clamp, utoa, digits, digits_value, tenth-lt, lt_wf}
use Prim.Native.Nat.{ℕ, ◌+◌, ◌-◌, ◌*◌, ◌/◌, ◌%◌, ◌^◌, ◌<◌, ◌≤◌}
use mathlib.Core.Path.{◌≡◌, refl, sym, ap, ◌∙◌}
use mathlib.Core.Bool.{◌||◌}
use mathlib.Core.Option.{some}
use mathlib.Core.List.{[], ◌∷◌}
use mathlib.Core.Logic.{dite, ◌≢◌, inl, inr}
use mathlib.Core.WellFounded.{Acc}
use native.Mathlib.Decide.{dec_lt}
use native.Mathlib.Omega.{arith}

-- Whether a digit is left or not.
digits_value-dite :
    (n : ℕ) (out : Bytes) (d : Dec (0 < n)) (f : 0 < n → Bytes)
    → ((h : 0 < n) → digits_value 0 (f h) ≡ digits_value n out)
    → digits_value 0 (dite d f (λ _. out)) ≡ digits_value n out
digits_value-dite n out (yes h) f g = g h
digits_value-dite n out (no h) f g = let e : n ≡ 0 = omega arith in rw e refl

digits_value-digits :
    (n : ℕ) (acc : Acc ◌<◌ n) (out : Bytes) → digits_value 0 (digits n acc out) ≡ digits_value n out
unfolding digits digits_value
digits_value-digits n (Acc.intro _ smaller) out =
    digits_value-dite n out (dec_lt 0 n)
      (λ h. digits (n / 10) (smaller (n / 10) (tenth-lt n h)) ((b'0' + n % 10) ∷ out))
      (λ h.
        let e : n / 10 * 10 + (b'0' + n % 10 - b'0') ≡ n = omega arith in
        digits_value-digits (n / 10) (smaller (n / 10) (tenth-lt n h)) ((b'0' + n % 10) ∷ out)
        ∙ ground arith)

digits_value-utoa : (n : ℕ) → digits_value 0 (utoa n) ≡ some n
unfolding utoa digits_value
digits_value-utoa n = ground (arith, digits_value-digits n (lt_wf.apply n) [])

pub utoa_inj : (n m : ℕ) → utoa n ≡ utoa m → n ≡ m
utoa_inj n m e =
    let same = sym (digits_value-utoa n) ∙ ap (digits_value 0) e ∙ digits_value-utoa m in cc

-- No text is empty: that of 0 is not, and that of another number has another value than 0.
pub utoa-ne-nil : (n : ℕ) → utoa n ≢ []
unfolding digits_value utoa
utoa-ne-nil n e =
    let zero_only : n ≡ 0 = let same = sym (digits_value-utoa n) ∙ ap (digits_value 0) e in cc in
    zero_text (ap utoa (sym zero_only) ∙ e)
  where
    zero_text : utoa 0 ≢ []
    zero_text h = cc

-- A text with a value is made of digits.
digits_value-All :
    (n : ℕ) (s : Bytes) {v : ℕ} → digits_value n s ≡ some v → All (λ c. (b'0' ≤ c) × (c ≤ b'9')) s
unfolding digits_value
digits_value-All n [] h = tt
digits_value-All n (c ∷ s) h = elim (Bool-cases (ltb c b'0' || ltb b'9' c)) [
  | inl t ↦ cc (rw t at h)
  | inr f ↦ (ground arith, digits_value-All (n * 10 + (c - b'0')) s (rw f at h))
]

pub utoa-All : (n : ℕ) → All (λ c. (b'0' ≤ c) × (c ≤ b'9')) (utoa n)
utoa-All n = digits_value-All 0 (utoa n) (digits_value-utoa n)

atoi_value-digits :
    (s : Bytes) {v : ℕ} → s ≢ [] → digits_value 0 s ≡ some v → v < 2 ^ 63 → atoi_value s ≡ pos v
unfolding atoi_value unsigned clamp digits_value
atoi_value-digits [] h e small = absurd (h refl)
atoi_value-digits (c ∷ s) h e small =
    let (digit, _) = digits_value-All 0 (c ∷ s) e in ground (arith, e)

pub atoi_value-utoa : (n : ℕ) → n < 2 ^ 63 → atoi_value (utoa n) ≡ pos n
atoi_value-utoa n small = atoi_value-digits (utoa n) (utoa-ne-nil n) (digits_value-utoa n) small
