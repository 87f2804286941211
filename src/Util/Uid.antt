-- ===== src/Util/Uid.antt =====
-- util/uid.go: random strings. A draw `src.Int63()` is a number below 2 ^ 63, given as an argument;
-- `cache & idxMask` is `cache % 64` and `cache >>= idxBits` is `cache / 64`.
pub mod Ids
pub mod Letters
use ae_ro_go.Base.{
  ℕ, zero, suc, ◌+◌, ◌-◌, ◌*◌, ◌/◌, ◌%◌, ◌≤◌, ◌<◌, ◌≡◌, refl, sym, ap, ◌∙◌, ◌⊎◌, Bool, true, false,
  ◌||◌, List, [], ◌∷◌, ◌++◌, append_assoc, Option, none, some, Bytes, codes, All, All-append,
  length, length-append, replicate, length-replicate, drop, get_or, set, length-set, drop-set,
  get_or-All, drop_all, append-nil, ltb, leb, ◌==◌, if◌then◌else◌, Bool-cases, inl, inr, arith,
}

abbrev pub letter_bytes : Bytes
letter_bytes = codes "abcdefghijklmnopqrstuvwxyzABCDEFGHIJKLMNOPQRSTUVWXYZ"

abbrev pub base62 : Bytes
base62 = codes "0123456789abcdefghijklmnopqrstuvwxyzABCDEFGHIJKLMNOPQRSTUVWXYZ"

abbrev pub idx_max : ℕ
idx_max = 10

-- `base62[idx]` and `letterBytes[idx]`; an index out of range, which would panic, reads as 0.
abbrev pub at : Bytes → ℕ → ℕ
at table idx = get_or table idx 0

-- The index that is used when no retry is left.
unfoldable pub folded : ℕ → ℕ → ℕ
folded idx i = if leb 62 idx then (idx + (idx - 61) * i) % 62 else idx

-- The loop of `RandStr8Base62`, at `i = n - 1`; `remain` is the number of retries left.
unfoldable pub rand_str8_loop : ℕ → ℕ → ℕ → Bytes → Bytes
rand_str8_loop zero remain cache buf8 = buf8
rand_str8_loop (suc i) zero cache buf8 =
    rand_str8_loop i zero (cache / 64) (set buf8 i (at base62 (folded (cache % 64) i)))
rand_str8_loop (suc i) (suc remain) cache buf8 =
    let retry = rand_str8_loop (suc i) remain (cache / 64) buf8 in
    let next = rand_str8_loop i (suc remain) (cache / 64) (set buf8 i (at base62 (cache % 64))) in
    if leb 62 (cache % 64) then retry else next

-- `RandStr8Base62`: the draw, and what the shared buffer `buf8` held before; it returns the buffer.
unfoldable pub rand_str8 : ℕ → Bytes → Bytes
rand_str8 int63 buf8 = rand_str8_loop 8 2 int63 buf8

-- The loop of `RandStr`, at `i = n - 1`, on a stream of draws of which `k` are used; `none` when the
-- fuel runs out.
unfoldable pub rand_str_loop : (ℕ → ℕ) → ℕ → ℕ → ℕ → ℕ → ℕ → Bytes → Option Bytes
rand_str_loop src fuel zero cache remain k b = some b
rand_str_loop src zero (suc i) cache remain k b = none
rand_str_loop src (suc fuel) (suc i) cache remain k b =
    let drawn = remain == 0 in
    let cache' = if drawn then src k else cache in
    let remain' = if drawn then idx_max else remain in
    let k' = if drawn then k + 1 else k in
    let idx = cache' % 64 in
    let put =
      rand_str_loop src fuel i (cache' / 64) (remain' - 1) k' (set b i (at letter_bytes idx)) in
    let skip = rand_str_loop src fuel (suc i) (cache' / 64) (remain' - 1) k' b in
    if ltb idx 52 then put else skip

-- `RandStr(n)`
unfoldable pub rand_str : (ℕ → ℕ) → ℕ → ℕ → Option Bytes
rand_str src fuel n = rand_str_loop src fuel n (src 0) idx_max 1 (replicate n 0)

abbrev pub IsLetter : ℕ → Type 0
IsLetter c = ((b'a' ≤ c) × (c ≤ b'z')) ⊎ ((b'A' ≤ c) × (c ≤ b'Z'))

abbrev pub IsAlnum : ℕ → Type 0
IsAlnum c = ((b'0' ≤ c) × (c ≤ b'9')) ⊎ IsLetter c
