-- ===== src/Message/Frame.antt =====
-- util/message/message.go: `Write` and `Read`, one frame on a byte stream. A reader gives its bytes
-- in chunks, as a socket does: one call of `Read` gets at most the first chunk.
use ae_ro_go.Base.{
  ℕ, zero, suc, ◌+◌, ◌-◌, ◌*◌, ◌/◌, ◌%◌, ◌^◌, Bool, List, [], ◌∷◌, ◌++◌, Bytes, length, take, drop,
  ltb, leb, ◌==◌, if◌then◌else◌,
}
use ae_ro_go.Message.{Error, eof, unexpected_eof, write_failed, invalid_msg, Result, ok, err, ◌>>=◌}

-- `last` is the error after the last chunk: end of file, or a failure such as a deadline.
pub record Reader : Type 0 where
  pub chunks : List Bytes
  pub last : Error

-- A writer takes all bytes of a call, or fails.
pub record Writer : Type 0 where
  pub out : Bytes
  pub broken : Bool

pub record Frame : Type 0 where
  pub flag : ℕ
  pub typ : ℕ
  pub payload : Bytes

-- `binary.Write(buf, binary.BigEndian, int32(n))`: the conversion keeps the low 32 bits.
unfoldable pub put_int32 : ℕ → Bytes
put_int32 n = let u = n % 2 ^ 32 in u / 2 ^ 24 ∷ u / 2 ^ 16 % 256 ∷ u / 2 ^ 8 % 256 ∷ u % 256 ∷ []

-- `buf` of `Write`, when it is handed to the writer.
unfoldable pub encode : Frame → Bytes
encode f = f.flag ∷ f.typ ∷ (put_int32 (length f.payload) ++ f.payload)

unfoldable pub write : Frame → Writer → Result Writer
write f w = if w.broken then err write_failed else ok (record w { out = w.out ++ encode f })

-- What is left of a chunk, in front of the others.
unfoldable pub keep : Bytes → List Bytes → List Bytes
keep [] cs = cs
keep (b ∷ bs) cs = (b ∷ bs) ∷ cs

-- `reader.Read(buf)` with room for `n` bytes.
unfoldable pub read_once : ℕ → Reader → Result (Bytes × Reader)
read_once n r = elim r.chunks [
  | [] ↦ err r.last
  | c ∷ cs ↦ ok (take n c, record r { chunks = keep (drop n c) cs })
]

-- `io.EOF` after some bytes is `io.ErrUnexpectedEOF`.
unfoldable pub short_error : Error → Bytes → Error
short_error eof (b ∷ bs) = unexpected_eof
short_error e got = e

unfoldable pub read_full_loop : ℕ → Bytes → List Bytes → Error → Result (Bytes × List Bytes)
read_full_loop n got [] e = if n == 0 then ok (got, []) else err (short_error e got)
read_full_loop n got (c ∷ cs) e =
    let rest = read_full_loop (n - length c) (got ++ c) cs e in
    if n == 0
    then ok (got, c ∷ cs)
    else if ltb n (length c)
    then ok (got ++ take n c, drop n c ∷ cs)
    else rest

-- `io.ReadFull` into `n` bytes.
unfoldable pub read_full : ℕ → Reader → Result (Bytes × Reader)
read_full n r = do
  (got, cs) ← read_full_loop n [] r.chunks r.last
  ok (got, record r { chunks = cs })

-- The four bytes as the bits of an int32.
unfoldable pub get_int32 : Bytes → ℕ
get_int32 [] = 0
get_int32 (b ∷ bs) = b * 2 ^ (8 * length bs) + get_int32 bs

-- `buf[i]` of the two bytes that start as zeros.
unfoldable pub byte_at : Bytes → ℕ → ℕ
byte_at [] i = 0
byte_at (b ∷ bs) zero = b
byte_at (b ∷ bs) (suc i) = byte_at bs i

-- The payload: any error of `ReadFull` becomes `ErrInvalidMsg`.
unfoldable pub read_payload : ℕ → ℕ → ℕ → Reader → Result (Frame × Reader)
read_payload flag typ n r = elim (read_full n r) [
  | ok (got, r') ↦ ok (record { flag = flag; typ = typ; payload = got }, r')
  | err e ↦ err invalid_msg
]

-- `Read`. The header's two bytes come from one `reader.Read`; a length with the top bit set is
-- negative as an int32.
unfoldable pub read : Reader → Result (Frame × Reader)
unfolding read_payload
read r = do
  (head, r1) ← read_once 2 r
  (size, r2) ← read_full 4 r1
  let n = get_int32 size
  if leb (2 ^ 31) n then err invalid_msg else read_payload (byte_at head 0) (byte_at head 1) n r2
