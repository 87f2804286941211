-- ===== src/Server/Address.antt =====
-- `net.SplitHostPort`, which `ActualPort` and `handle` call.
use ae_ro_go.Base.{
  ℕ, suc, ◌+◌, ◌≡◌, refl, Bool, true, false, ◌&&◌, ◌||◌, [], ◌∷◌, Bytes, codes, Option, none, some,
  take, drop, head_or, ◌==◌, if◌then◌else◌,
}

-- `strings.IndexByte`; `none` for -1.
unfoldable pub index_byte : Bytes → ℕ → Option ℕ
index_byte [] b = none
index_byte (c ∷ s) b =
    if c == b then some 0 else elim (index_byte s b) [ none ↦ none | some i ↦ some (suc i) ]

-- The last place of a byte.
unfoldable pub last_index_byte : Bytes → ℕ → Option ℕ
last_index_byte [] b = none
last_index_byte (c ∷ s) b = elim (last_index_byte s b) [
  | some i ↦ some (suc i)
  | none ↦ if c == b then some 0 else none
]

abbrev has_byte : Bytes → ℕ → Bool
has_byte s b = elim (index_byte s b) [ none ↦ false | some i ↦ true ]

-- With the last colon at `i`: a host in brackets, which must end right before it.
bracketed : Bytes → ℕ → Option ℕ → Option (Bytes × Bytes)
bracketed s i none = none
bracketed s i (some end) =
    if end + 1 == i && not_inside then some (drop 1 (take end s), drop (i + 1) s) else none
  where
    not_inside : Bool
    not_inside = elim (has_byte (drop 1 s) b'[' || has_byte (drop (end + 1) s) b']') [
      | true ↦ false
      | false ↦ true
    ]

plain : Bytes → ℕ → Option (Bytes × Bytes)
plain s i =
    if has_byte (take i s) b':' || (has_byte s b'[' || has_byte s b']')
    then none
    else some (take i s, drop (i + 1) s)

at_colon : Bytes → Option ℕ → Option (Bytes × Bytes)
unfolding bracketed plain
at_colon s none = none
at_colon s (some i) = if head_or 0 s == b'[' then bracketed s i (index_byte s b']') else plain s i

-- `net.SplitHostPort`: the host and the port; `none` is an error.
unfoldable pub split_host_port : Bytes → Option (Bytes × Bytes)
unfolding at_colon
split_host_port s = at_colon s (last_index_byte s b':')

split_v6 : split_host_port (codes "[::]:30005") ≡ some (codes "::", codes "30005")
unfolding split_host_port index_byte last_index_byte
split_v6 = refl

split_v4 : split_host_port (codes "10.0.0.7:80") ≡ some (codes "10.0.0.7", codes "80")
unfolding split_host_port index_byte last_index_byte
split_v4 = refl

split_many : split_host_port (codes "::1:80") ≡ none
unfolding split_host_port index_byte last_index_byte
split_many = refl
