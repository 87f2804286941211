-- ===== src/Util/Legal.antt =====
-- util/util.go: `CheckLegal`. `for _, r := range s` decodes UTF-8 as the language says: bytes that
-- are no encoding give the replacement character and take one byte.
use ae_ro_go.Base.{
  ℕ, zero, suc, ◌+◌, ◌-◌, ◌*◌, ◌≤◌, ◌<◌, ◌≡◌, refl, ◌↔◌, ◌⊎◌, inl, inr, Bool, true, false, ◌&&◌,
  ◌||◌, not, List, [], ◌∷◌, Bytes, All, ltb, leb, ◌==◌, if◌then◌else◌, Bool-cases, ltb→lt, arith,
}

abbrev rune_error : ℕ
rune_error = 0xfffd

abbrev between : ℕ → ℕ → ℕ → Bool
between lo hi b = leb lo b && leb b hi

abbrev is_cont : ℕ → Bool
is_cont b = between 0x80 0xbf b

-- The least and the greatest second byte after the first byte `b` of three or four.
second_ok : ℕ → ℕ → Bool
second_ok b c =
    if b == 0xe0
    then between 0xa0 0xbf c
    else if b == 0xed
    then between 0x80 0x9f c
    else if b == 0xf0
    then between 0x90 0xbf c
    else if b == 0xf4
    then between 0x80 0x8f c
    else is_cont c

-- The rune and its width, of a first byte and the bytes behind it.
decode_two : ℕ → Bytes → ℕ × ℕ
decode_two b [] = (rune_error, 1)
decode_two b (c ∷ s) = if is_cont c then ((b - 0xc0) * 64 + (c - 0x80), 2) else (rune_error, 1)

decode_three : ℕ → Bytes → ℕ × ℕ
decode_three b [] = (rune_error, 1)
decode_three b (c ∷ []) = (rune_error, 1)
decode_three b (c ∷ d ∷ s) =
    if second_ok b c && is_cont d
    then ((b - 0xe0) * 4096 + (c - 0x80) * 64 + (d - 0x80), 3)
    else (rune_error, 1)

decode_four : ℕ → Bytes → ℕ × ℕ
decode_four b [] = (rune_error, 1)
decode_four b (c ∷ []) = (rune_error, 1)
decode_four b (c ∷ d ∷ []) = (rune_error, 1)
decode_four b (c ∷ d ∷ e ∷ s) =
    if second_ok b c && (is_cont d && is_cont e)
    then ((b - 0xf0) * 262144 + (c - 0x80) * 4096 + (d - 0x80) * 64 + (e - 0x80), 4)
    else (rune_error, 1)

decode_rune : ℕ → Bytes → ℕ × ℕ
decode_rune b s =
    if ltb b 0x80
    then (b, 1)
    else if between 0xc2 0xdf b
    then decode_two b s
    else if between 0xe0 0xef b
    then decode_three b s
    else if between 0xf0 0xf4 b
    then decode_four b s
    else (rune_error, 1)

-- The runes that the loop sees; `skip` bytes belong to the rune before.
runes_from : ℕ → Bytes → List ℕ
runes_from skip [] = []
runes_from (suc skip) (b ∷ s) = runes_from skip s
runes_from zero (b ∷ s) = let (r, w) = decode_rune b s in r ∷ runes_from (w - 1) s

runes : Bytes → List ℕ
runes s = runes_from 0 s

-- The loop's test for a rune that is not allowed.
is_bad : ℕ → Bool
is_bad r =
    (ltb r b'a' || ltb b'z' r)
    && ((ltb r b'A' || ltb b'Z' r)
        && ((ltb r b'0' || ltb b'9' r) && (not (r == b'-') && not (r == b'_'))))

check_runes : List ℕ → Bool
check_runes [] = true
check_runes (r ∷ rs) = if is_bad r then false else check_runes rs

-- `CheckLegal`
pub check_legal : Bytes → Bool
check_legal s = check_runes (runes s)

-- A letter, a digit, a dash or an underscore.
abbrev pub IsWordByte : ℕ → Type 0
IsWordByte b =
    ((b'a' ≤ b) × (b ≤ b'z'))
    ⊎ ((b'A' ≤ b) × (b ≤ b'Z'))
    ⊎ ((b'0' ≤ b) × (b ≤ b'9'))
    ⊎ (b ≡ b'-')
    ⊎ (b ≡ b'_')

is_bad_iff : (r : ℕ) → (is_bad r ≡ false) ↔ IsWordByte r
unfolding is_bad
is_bad_iff r = ground arith

-- A byte from 128 on starts no rune below 128, so none that is allowed.
decode_two-wide : (b : ℕ) (s : Bytes) → 0xc2 ≤ b → 128 ≤ (decode_two b s).0
unfolding decode_two
decode_two-wide b [] h = omega arith
decode_two-wide b (c ∷ s) h = ground arith

decode_three-wide : (b : ℕ) (s : Bytes) → 0xe0 ≤ b → 128 ≤ (decode_three b s).0
unfolding decode_three second_ok
decode_three-wide b [] h = omega arith
decode_three-wide b (c ∷ []) h = omega arith
decode_three-wide b (c ∷ d ∷ s) h = ground arith

decode_four-wide : (b : ℕ) (s : Bytes) → 0xf0 ≤ b → 128 ≤ (decode_four b s).0
unfolding decode_four second_ok
decode_four-wide b [] h = omega arith
decode_four-wide b (c ∷ []) h = omega arith
decode_four-wide b (c ∷ d ∷ []) h = omega arith
decode_four-wide b (c ∷ d ∷ e ∷ s) h = ground arith

decode_rune-wide : (b : ℕ) (s : Bytes) → 128 ≤ b → 128 ≤ (decode_rune b s).0
unfolding decode_rune
decode_rune-wide b s h =
    ground (arith, decode_two-wide b s, decode_three-wide b s, decode_four-wide b s)

decode_rune_ascii : (b : ℕ) (s : Bytes) → b < 128 → decode_rune b s ≡ (b, 1)
unfolding decode_rune
decode_rune_ascii b s h = ground arith

check_legal→All : (s : Bytes) → check_legal s ≡ true → All IsWordByte s
unfolding check_legal runes runes_from check_runes
check_legal→All [] h = tt
check_legal→All (b ∷ s) h = elim (Bool-cases (ltb b 0x80)) [
  | inl t ↦
      let e = decode_rune_ascii b s (ltb→lt b 0x80 t) in
      let bad : is_bad b ≡ false = ground (arith, e, rw e at h) in
      ((is_bad_iff b).0 bad, check_legal→All s (ground (arith, rw e at h)))
  | inr f ↦
      let wide : 128 ≤ b = ground arith in
      let wide' : 128 ≤ (decode_rune b s).0 = decode_rune-wide b s wide in
      absurd (ground (arith, is_bad_iff (decode_rune b s).0))
]

All→check_legal : (s : Bytes) → All IsWordByte s → check_legal s ≡ true
unfolding check_legal runes runes_from check_runes
All→check_legal [] h = refl
All→check_legal (b ∷ s) h =
    let e = decode_rune_ascii b s (ground (arith, h.0)) in
    rw (e, (is_bad_iff b).1 h.0) (All→check_legal s h.1)

-- `CheckLegal` accepts exactly the texts of which every byte is a letter, a digit, a dash or an
-- underscore; it sees through no multi-byte rune.
pub check_legal_iff : (s : Bytes) → (check_legal s ≡ true) ↔ All IsWordByte s
check_legal_iff s = (check_legal→All s, All→check_legal s)
