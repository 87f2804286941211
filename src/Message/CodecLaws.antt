-- ===== src/Message/CodecLaws.antt =====
-- util/message/message.go: `Get` after `Send`, and what `Get` accepts.
use ae_ro_go.Base.{
  flat, ℕ, ◌^◌, ◌≤◌, ◌<◌, ◌≡◌, refl, ap, ◌≢◌, List, [], ◌∷◌, ◌++◌, Bytes, length, none, some,
  Option-cases, inl, inr, false, arith,
}
use ae_ro_go.Message.{
  Message, Kind, login_request, other, Error, ok, get_msg_info, type_req_map, type_resp_map,
  Result-cases,
}
use ae_ro_go.Message.Frame.{
  Reader, Writer, Frame, encode, write, keep, put_int32, read, read_once, read_payload, byte_at,
}
use ae_ro_go.Message.FrameLaws.{read_chunked}
use ae_ro_go.Message.Codec.{IsText, Json, kind_of, lookup_type, get, send}

-- The two type maps undo `getMsgInfo`.
lookup_type-get_msg_info :
    (m : Message) (flag typ : ℕ)
    → get_msg_info m ≡ ok (flag, typ)
    → lookup_type flag typ ≡ kind_of m
unfolding lookup_type get_msg_info kind_of type_req_map type_resp_map
lookup_type-get_msg_info (login_request r) flag typ h = ground arith
lookup_type-get_msg_info (other v) flag typ h = cc
lookup_type-get_msg_info _ flag typ h = ground arith

get_msg_info-lookup_type :
    (m : Message) (k : Kind) (flag typ : ℕ)
    → lookup_type flag typ ≡ some k
    → kind_of m ≡ some k
    → get_msg_info m ≡ ok (flag, typ)
unfolding lookup_type get_msg_info kind_of type_req_map type_resp_map
get_msg_info-lookup_type (login_request r) k flag typ h e = ground arith
get_msg_info-lookup_type _ k flag typ h e = ground arith

kind_of-get_msg_info :
    (m : Message) {p : ℕ × ℕ} → get_msg_info m ≡ ok p → (k : Kind) × (kind_of m ≡ some k)
unfolding get_msg_info kind_of
kind_of-get_msg_info (login_request r) h = (_, refl)
kind_of-get_msg_info (other v) h = cc
kind_of-get_msg_info _ h = (_, refl)

length-encode : (f : Frame) → length f.payload ≤ length (encode f)
unfolding encode put_int32
length-encode f = omega arith

-- A type code of 0 is no message's.
lookup_type_zero : (flag : ℕ) → lookup_type flag 0 ≡ none
unfolding lookup_type type_req_map type_resp_map
lookup_type_zero flag = ground arith

-- The second header byte is then the 0 that the buffer was made with.
read_one_byte :
    (b : ℕ) (cs : List Bytes) (e : Error) (f : Frame) (r : Reader)
    → read (record { chunks = (b ∷ []) ∷ cs; last = e }) ≡ ok (f, r)
    → f.typ ≡ 0
unfolding read read_once keep byte_at read_payload
read_one_byte b cs e f r h = ground arith

module _ (json : Json) where
  -- What a successful `send` did.
  pub send_inv :
      (m : Message) (w w' : Writer)
      → send json m w ≡ ok w'
      → (f : Frame) × (get_msg_info m ≡ ok (f.flag, f.typ))
        × (json.marshal m ≡ some f.payload)
        × (w'.out ≡ w.out ++ encode f)
  unfolding send write
  send_inv m w w' h = elim (Result-cases (get_msg_info m)) [
    | inl ((flag, typ), e) ↦ elim (Option-cases (json.marshal m)) [
      | inl n ↦ cc (rw (e, n) at h)
      | inr (b, eb) ↦
          (record { flag = flag; typ = typ; payload = b }, e, eb, ground (arith, w.broken))
    ]
    | inr (x, ex) ↦ cc (rw ex at h)
  ]

  -- A message of ASCII texts that `send` wrote to less than 2 ^ 31 bytes is what `get` reads,
  -- however the stream is cut into chunks, if the first chunk holds the two header bytes; what
  -- follows the message is left.
  pub get-send :
      (m : Message) (w : Writer) (c rest : Bytes) (cs : List Bytes) (x y : ℕ) (e : Error)
      → IsText m
      → send json m (record { out = []; broken = false }) ≡ ok w
      → length w.out < 2 ^ 31
      → x ∷ y ∷ (c ++ flat cs) ≡ w.out ++ rest
      → (r' : Reader) × (get json (record { chunks = (x ∷ y ∷ c) ∷ cs; last = e }) ≡ ok (m, r'))
        × (flat r'.chunks ≡ rest)
        × (r'.last ≡ e)
  unfolding get
  get-send m w c rest cs x y e text sent small h =
      let (f, info, body, out) = send_inv m (record { out = []; broken = false }) w sent in
      let (r', p, q, l) =
        read_chunked f c rest cs x y e (rw (← out) h)
          (omega (arith, ap length out, length-encode f)) in
      let kind : lookup_type f.flag f.typ ≡ kind_of m =
        lookup_type-get_msg_info m f.flag f.typ info in
      let (k, ek) = kind_of-get_msg_info m info in
      (r', ground (arith, p, kind, ek, json.unmarshal-marshal m k f.payload text ek body), q, l)

  -- One byte of the header alone in the first chunk: whatever follows, no message is ever read.
  pub get_one_byte :
      (b : ℕ) (cs : List Bytes) (e : Error) (p : Message × Reader)
      → get json (record { chunks = (b ∷ []) ∷ cs; last = e }) ≢ ok p
  unfolding get
  get_one_byte b cs e p h =
      elim (Result-cases (read (record { chunks = (b ∷ []) ∷ cs; last = e }))) [
        | inl ((f, r), er) ↦ cc (rw (er, read_one_byte b cs e f r er, lookup_type_zero) at h)
        | inr (x, ex) ↦ cc (rw ex at h)
      ]

  -- A message that `get` returns has the flag and the type code that stood in its frame.
  pub get_sound :
      (r r' : Reader) (m : Message)
      → get json r ≡ ok (m, r')
      → (f : Frame) × (read r ≡ ok (f, r')) × (get_msg_info m ≡ ok (f.flag, f.typ))
  unfolding get
  get_sound r r' m h = elim (Result-cases (read r)) [
    | inl ((f, r2), e) ↦ elim (Option-cases (lookup_type f.flag f.typ)) [
      | inl n ↦ cc (rw (e, n) at h)
      | inr (k, ek) ↦ elim (Option-cases (json.unmarshal k f.payload)) [
        | inl n ↦ cc (rw (e, ek, n) at h)
        | inr (m2, em) ↦ (
          f,
          ground arith,
          get_msg_info-lookup_type m k f.flag f.typ ek
              (json.unmarshal_kind k f.payload m (ground arith)),
        )
      ]
    ]
    | inr (x, ex) ↦ cc (rw ex at h)
  ]
