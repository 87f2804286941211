-- ===== src/Base/Chan.antt =====
-- Go channels with a buffer, as the language runs them. An operation completes, blocks the
-- goroutine, or panics.
use ae_ro_go.Base.Tests.{ltb, if◌then◌else◌}
use ae_ro_go.Base.Lists.{length, length-append}
use Prim.Native.Nat.{ℕ, ◌≤◌}
use mathlib.Core.Path.{◌≡◌, refl}
use mathlib.Core.Bool.{Bool, true, false}
use mathlib.Core.Option.{Option, none, some}
use mathlib.Core.List.{List, [], ◌∷◌, ◌++◌}
use native.Mathlib.Omega.{arith}

-- Oldest entry first.
pub record Chan {ℓ} (A : Type ℓ) : Type ℓ where
  pub buf : List A
  pub cap : ℕ
  pub closed : Bool

pub data Outcome {ℓ} (A : Type ℓ) : Type ℓ where
  done : A → Outcome A
  blocked : Outcome A
  panicked : Outcome A

module _ {ℓ} {A : Type ℓ} where
  -- `make(chan A, n)`
  abbrev pub make_chan : ℕ → Chan A
  make_chan n = record { buf = []; cap = n; closed = false }

  -- `c <- a`
  unfoldable pub send : Chan A → A → Outcome (Chan A)
  send c a =
      if c.closed
      then panicked
      else if ltb (length c.buf) c.cap
      then done (record c { buf = c.buf ++ a ∷ [] })
      else blocked

  recv_from : List A → Chan A → Outcome (Option A × Chan A)
  recv_from [] c = if c.closed then done (none, c) else blocked
  recv_from (a ∷ rest) c = done (some a, record c { buf = rest })

  -- `a, ok := <-c`; `none` is the answer of a closed and drained channel.
  unfoldable pub recv : Chan A → Outcome (Option A × Chan A)
  unfolding recv_from
  recv c = recv_from c.buf c

  -- `close(c)`
  unfoldable pub close : Chan A → Outcome (Chan A)
  close c = if c.closed then panicked else done (record c { closed = true })

  abbrev pub Fits : Chan A → Type 0
  Fits c = length c.buf ≤ c.cap

  pub send-Fits : (c : Chan A) (a : A) {c' : Chan A} → Fits c → send c a ≡ done c' → Fits c'
  unfolding send
  send-Fits c a h e = ground (arith, length-append c.buf (a ∷ []))

-- What follows an operation on a channel, once it is done.
abbrev pub ok_or_blocked {ℓ κ} : {A : Type ℓ} {B : Type κ} → Outcome A → (A → Outcome B) → Outcome B
ok_or_blocked (done a) f = f a
ok_or_blocked blocked f = blocked
ok_or_blocked panicked f = panicked

pub ok_or_blocked_inv {ℓ κ} :
    {A : Type ℓ} {B : Type κ} (o : Outcome A) (f : A → Outcome B) {b : B}
    → ok_or_blocked o f ≡ done b
    → (a : A) × (o ≡ done a) × (f a ≡ done b)
ok_or_blocked_inv (done a) f h = (a, refl, h)
ok_or_blocked_inv blocked f h = cc
ok_or_blocked_inv panicked f h = cc
