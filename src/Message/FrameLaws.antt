-- ===== src/Message/FrameLaws.antt =====
-- util/message/message.go: what `Read` makes of what `Write` wrote, however the stream is cut.
use ae_ro_go.Base.{
  ℕ, zero, suc, ◌-◌, ◌^◌, ◌≤◌, ◌<◌, ◌≡◌, refl, ap, ◌∙◌, inl, inr, List, [], ◌∷◌, ◌++◌, append_assoc,
  append-nil, Bytes, length, length-append, take, drop, take-append_le, drop-append_le,
  take-append_self, drop-append_self, take-append_ge, drop-append_ge, flat, ltb, Bool-cases, arith,
}
use ae_ro_go.Message.{Error, ok}
use ae_ro_go.Message.Frame.{
  Reader, Frame, put_int32, encode, keep, read_once, read_full_loop, read_full, get_int32, byte_at,
  read_payload, read,
}

flat-keep : (c : Bytes) (cs : List Bytes) → flat (keep c cs) ≡ c ++ flat cs
unfolding keep
flat-keep [] cs = refl
flat-keep (b ∷ bs) cs = refl

-- `ReadFull` gets the next `n` bytes wherever the chunks end, and leaves the others.
read_full_loop-flat :
    (n : ℕ) (got : Bytes) (cs : List Bytes) (e : Error)
    → n ≤ length (flat cs)
    → (cs' : List Bytes) × (read_full_loop n got cs e ≡ ok (got ++ take n (flat cs), cs'))
      × (flat cs' ≡ drop n (flat cs))
unfolding read_full_loop
read_full_loop-flat zero got [] e h = ([], rw append-nil, refl)
read_full_loop-flat zero got (c ∷ cs) e h = (c ∷ cs, rw append-nil, refl)
read_full_loop-flat (suc n) got [] e h = absurd (omega arith)
read_full_loop-flat (suc n) got (c ∷ cs) e h = elim (Bool-cases (ltb (suc n) (length c))) [
  | inl t ↦ (
    drop (suc n) c ∷ cs,
    ground (arith, take-append_le (suc n) c (flat cs)),
    ground (arith, drop-append_le (suc n) c (flat cs)),
  )
  | inr f ↦
      let (cs', p, q) =
        read_full_loop-flat (suc n - length c) (got ++ c) cs e
          (omega (arith, length-append c (flat cs))) in
      (
        cs',
        ground (
          arith,
          take-append_ge (suc n) c (flat cs),
          append_assoc got c (take (suc n - length c) (flat cs)),
        ),
        ground (arith, drop-append_ge (suc n) c (flat cs)),
      )
]

get_int32-put_int32 : (n : ℕ) → n < 2 ^ 31 → get_int32 (put_int32 n) ≡ n
unfolding get_int32 put_int32
get_int32-put_int32 n h = omega arith

-- `ReadFull` on a reader.
read_full-flat :
    (n : ℕ) (r : Reader)
    → n ≤ length (flat r.chunks)
    → (r' : Reader) × (read_full n r ≡ ok (take n (flat r.chunks), r'))
      × (flat r'.chunks ≡ drop n (flat r.chunks))
      × (r'.last ≡ r.last)
unfolding read_full
read_full-flat n r h =
    let (cs', p, q) = read_full_loop-flat n [] r.chunks r.last h in
    (record r { chunks = cs' }, ground arith, q, refl)

length-put_int32 : (n : ℕ) → 4 ≡ length (put_int32 n)
unfolding put_int32
length-put_int32 n = refl

-- The same, where the bytes to come are those asked for and some more.
read_full-append :
    (n : ℕ) (xs ys : Bytes) (r : Reader)
    → n ≡ length xs
    → flat r.chunks ≡ xs ++ ys
    → (r' : Reader) × (read_full n r ≡ ok (xs, r')) × (flat r'.chunks ≡ ys) × (r'.last ≡ r.last)
read_full-append n xs ys r en e =
    let (r', p, q, l) = read_full-flat n r (rw (e, en, length-append xs ys) (omega arith)) in
    (
      r',
      p ∙ ap (λ t. ok (t, r')) (rw (e, en) (take-append_self xs ys)),
      q ∙ rw (e, en) (drop-append_self xs ys),
      l,
    )

-- The payload behind a header and a length.
read_payload-append :
    (flag typ : ℕ) (payload rest : Bytes) (r : Reader)
    → flat r.chunks ≡ payload ++ rest
    → (r' : Reader) × (read_payload flag typ (length payload) r
        ≡ ok (record { flag = flag; typ = typ; payload = payload }, r'))
      × (flat r'.chunks ≡ rest)
      × (r'.last ≡ r.last)
unfolding read_payload
read_payload-append flag typ payload rest r e =
    let (r', p, q, l) = read_full-append (length payload) payload rest r refl e in
    (r', rw (p, read_payload), q, l)

-- If the payload is shorter than 2 ^ 31 bytes, then whatever the chunks are, if the first holds
-- both header bytes, `read` gives back the frame that `encode` wrote and leaves the bytes behind
-- it.
pub read_chunked :
    (f : Frame) (c rest : Bytes) (cs : List Bytes) (x y : ℕ) (e : Error)
    → x ∷ y ∷ (c ++ flat cs) ≡ encode f ++ rest
    → length f.payload < 2 ^ 31
    → (r' : Reader) × (read (record { chunks = (x ∷ y ∷ c) ∷ cs; last = e }) ≡ ok (f, r'))
      × (flat r'.chunks ≡ rest)
      × (r'.last ≡ e)
unfolding read read_once encode byte_at
read_chunked f c rest cs x y e h small =
    let r1 : Reader = record { chunks = keep c cs; last = e } in
    let body : flat r1.chunks ≡ put_int32 (length f.payload) ++ (f.payload ++ rest) =
      flat-keep c cs ∙ ap (drop 2) h ∙ append_assoc (put_int32 (length f.payload)) f.payload rest in
    let (r2, p2, q2, l2) =
      read_full-append 4 (put_int32 (length f.payload)) (f.payload ++ rest) r1
        (length-put_int32 (length f.payload)) body in
    let (r3, p3, q3, l3) = read_payload-append f.flag f.typ f.payload rest r2 q2 in
    (r3, (ground (arith, get_int32-put_int32 (length f.payload) small)), q3, l3 ∙ l2)
