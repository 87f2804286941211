-- ===== src/Util/Ema.antt =====
-- util/ema.go: the exponential moving average. Floating point is the hardware's: its type and
-- operations are a parameter, taken up to Go's `==`, which does not tell -0 from 0.
use ae_ro_go.Base.{ℕ, ◌≡◌, refl, ◌∙◌, Bool, true, false, List, [], ◌∷◌, ◌==◌, if◌then◌else◌}
use ae_ro_go.Base.Int.{ℤ, pos}

-- The laws are those of IEEE 754 at finite values.
pub record Float : Type 1 where
  pub F : Type 0
  pub zero : F
  pub one : F
  pub of_int : ℤ → F
  pub add : F → F → F
  pub sub : F → F → F
  pub mul : F → F → F
  pub div : F → F → F
  pub zero-add : (x : F) → add zero x ≡ x
  pub mul-zero : (n : ℤ) → mul (of_int n) zero ≡ zero
  pub mul-one : (x : F) → mul x one ≡ x
  pub sub-zero : (x : F) → sub x zero ≡ x

abbrev default_window_size : ℕ
default_window_size = 5

module _ (float : Float) where
  open float use {F, zero, one, of_int, add, sub, mul, div}

  pub record Ema : Type 0 where
    pub init : Bool
    pub avg : F
    pub last : ℤ
    pub constant : F

  -- The zero value of the struct.
  abbrev pub zero_ema : Ema
  zero_ema = record { init = false; avg = zero; last = pos 0; constant = zero }

  -- `NewEMA`
  unfoldable pub new_ema : ℕ → Ema
  new_ema size =
      let size' : ℕ = if size == 0 then default_window_size else size in
      record zero_ema { constant = div one (add one (of_int (pos size'))) }

  -- `Update`; its result is the new average.
  unfoldable pub update : Ema → ℤ → Ema
  update ema next =
      if ema.init
      then record ema {
        last = next;
        avg = add (mul (of_int next) ema.constant) (mul ema.avg (sub one ema.constant));
      }
      else record ema { last = next; init = true; avg = of_int next }

  unfoldable pub updates : Ema → List ℤ → Ema
  updates ema [] = ema
  updates ema (n ∷ ns) = updates (update ema n) ns

  -- An average that is set, under the constant 0.
  abbrev settled : F → ℤ → Ema
  settled avg last = record { init = true; avg = avg; last = last; constant = zero }

  updates-settled : (avg : F) (last : ℤ) (ns : List ℤ) → (updates (settled avg last) ns).avg ≡ avg
  unfolding updates update
  updates-settled avg last [] = refl
  updates-settled avg last (n ∷ ns) =
      updates-settled (add (mul (of_int n) zero) (mul avg (sub one zero))) n ns
      ∙ rw (float.mul-zero n, float.sub-zero one, float.mul-one, float.zero-add)

  -- The zero value, which is never passed through `NewEMA`, keeps the first sample as its average.
  pub updates-zero_ema : (n : ℤ) (ns : List ℤ) → (updates zero_ema (n ∷ ns)).avg ≡ of_int n
  unfolding updates update
  updates-zero_ema n ns = updates-settled _ n ns
