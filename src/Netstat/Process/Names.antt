-- ===== src/Netstat/Process/Names.antt =====
-- netstat/netstat_linux.go: the name that is found in `stat`.
use ae_ro_go.Base.{
  ℕ, suc, ◌-◌, ◌≤◌, ◌≡◌, ◌≢◌, refl, sym, ap, ◌∙◌, [], ◌∷◌, ◌++◌, append_assoc, Bytes, none, some,
  length, take-append_self, take, take-append_ge, All-append, All, arith,
}
use ae_ro_go.Base.Int.{ℤ}
use ae_ro_go.Netstat.Process.{
  index, last_index, get_proc_name, until_space, second_part, process_of,
}

abbrev pub Without : ℕ → Bytes → Type 0
Without c = All (λ b. b ≢ c)

until_space-append : (s rest : Bytes) → Without b' ' s → until_space (s ++ b' ' ∷ rest) ≡ s
unfolding until_space
until_space-append [] rest h = refl
until_space-append (c ∷ s) rest h = ground (arith, until_space-append s rest h.1)

second_part-append :
    (pid s : Bytes) → Without b' ' pid → second_part (pid ++ b' ' ∷ s) ≡ some (until_space s)
unfolding second_part
second_part-append [] s h = refl
second_part-append (c ∷ pid) s h = ground (arith, second_part-append pid s h.1)

last_index-snoc : (c : ℕ) (s : Bytes) → last_index c (s ++ c ∷ []) ≡ some (length s)
unfolding last_index
last_index-snoc c [] = ground arith
last_index-snoc c (b ∷ s) = ground (arith, last_index-snoc c s)

last_index-none : (c : ℕ) (s : Bytes) → Without c s → last_index c s ≡ none
unfolding last_index
last_index-none c [] h = refl
last_index-none c (b ∷ s) h = ground (arith, last_index-none c s h.1)

get_proc_name-closed : (name : Bytes) → get_proc_name (b'(' ∷ name ++ b')' ∷ []) ≡ name
unfolding get_proc_name index
get_proc_name-closed name =
    let j = last_index-snoc b')' (b'(' ∷ name) in
    rw (j, get_proc_name)
      (let n : suc (length name) - 1 ≡ length name = omega arith in
        ground (arith, n, take-append_self name (b')' ∷ [])))

get_proc_name-cut : (name : Bytes) → Without b')' name → get_proc_name (b'(' ∷ name) ≡ []
unfolding get_proc_name index
get_proc_name-cut name h =
    let j = last_index-none b')' (b'(' ∷ name) ((λ e. cc), h) in rw (j, get_proc_name) refl

until_closed :
    (name rest : Bytes)
    → Without b' ' name
    → until_space ((b'(' ∷ (name ++ (b')' ∷ b' ' ∷ []))) ++ rest) ≡ b'(' ∷ name ++ b')' ∷ []
until_closed name rest clean =
    ap (λ s. until_space (b'(' ∷ s))
      (append_assoc name (b')' ∷ b' ' ∷ []) rest
        ∙ sym (append_assoc name (b')' ∷ []) (b' ' ∷ rest)))
    ∙ until_space-append (b'(' ∷ name ++ b')' ∷ []) rest
        ((λ e. cc), All-append (λ b. b ≢ b' ') name (b')' ∷ []) clean ((λ e. cc), tt))

until_cut :
    (word rest : Bytes)
    → Without b' ' word
    → until_space ((b'(' ∷ (word ++ (b' ' ∷ []))) ++ rest) ≡ b'(' ∷ word
until_cut word rest clean =
    ap (λ s. until_space (b'(' ∷ s)) (append_assoc word (b' ' ∷ []) rest)
    ∙ until_space-append (b'(' ∷ word) rest ((λ e. cc), clean)

-- A `stat` of which the first part is within the 128 bytes that are read.
process_at :
    (pid : ℤ) (id s rest : Bytes)
    → Without b' ' id
    → length (id ++ (b' ' ∷ s)) ≤ 128
    → process_of pid ((id ++ (b' ' ∷ s)) ++ rest)
      ≡ some (pid, get_proc_name (until_space (s ++ take (128 - length (id ++ (b' ' ∷ s))) rest)))
unfolding process_of
process_at pid id s rest h le =
    let more = take (128 - length (id ++ (b' ' ∷ s))) rest in
    let reads : take 128 ((id ++ (b' ' ∷ s)) ++ rest) ≡ id ++ (b' ' ∷ (s ++ more)) =
      take-append_ge 128 (id ++ (b' ' ∷ s)) rest le ∙ append_assoc id (b' ' ∷ s) more in
    rw (process_of, reads, second_part-append id (s ++ more) h) refl

-- Of a `stat` that starts with an id and a name in brackets with a space behind them, all within the
-- first 128 bytes, and neither of them with a space in it, the process is found with that name,
-- whatever brackets the name has. If a word with neither a space nor a closing bracket is what stands
-- between the opening bracket and the next space, the process is found with an empty name.
pub process_of_names :
    (pid : ℤ) (id name word rest : Bytes)
    → Without b' ' id
    → Without b' ' name
    → Without b' ' word
    → Without b')' word
    → length (id ++ (b' ' ∷ b'(' ∷ (name ++ (b')' ∷ b' ' ∷ [])))) ≤ 128
    → length (id ++ (b' ' ∷ b'(' ∷ (word ++ (b' ' ∷ [])))) ≤ 128
    → (process_of pid ((id ++ (b' ' ∷ b'(' ∷ (name ++ (b')' ∷ b' ' ∷ [])))) ++ rest)
        ≡ some (pid, name))
      × (process_of pid ((id ++ (b' ' ∷ b'(' ∷ (word ++ (b' ' ∷ [])))) ++ rest) ≡ some (pid, []))
process_of_names pid id name word rest h clean clean' bracket le le' = (
  process_at pid id (b'(' ∷ (name ++ (b')' ∷ b' ' ∷ []))) rest h le
      ∙ ap (λ z. some (pid, get_proc_name z)) (until_closed name _ clean)
      ∙ ap (λ z. some (pid, z)) (get_proc_name-closed name),
  process_at pid id (b'(' ∷ (word ++ (b' ' ∷ []))) rest h le'
      ∙ ap (λ z. some (pid, get_proc_name z)) (until_cut word _ clean')
      ∙ ap (λ z. some (pid, z)) (get_proc_name-cut word bracket),
)
