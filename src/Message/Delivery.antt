-- ===== src/Message/Delivery.antt =====
-- util/message/message.go: a message on its way from a `Send` to a `Get`.
use ae_ro_go.Base.{
  flat, ℕ, ◌^◌, ◌<◌, ◌≡◌, sym, ap, ◌∙◌, List, [], ◌∷◌, ◌++◌, Bytes, length, drop, drop-append_self,
  false,
}
use ae_ro_go.Message.{Message, ok}
use ae_ro_go.Message.Frame.{Reader, Writer, encode, write}
use ae_ro_go.Message.Codec.{Json, IsText, get, send}
use ae_ro_go.Message.CodecLaws.{send_inv, get-send}

-- A message of ASCII texts was sent on `out`, which became `out'`, and its bytes, with `rest` behind
-- them, are what the reader at the other end gives. The two bytes of the header come together.
pub record Delivered (json : Json) (m : Message) (out out' : Writer) (r : Reader) (rest : Bytes)
    : Type 0 where
  pub text : IsText m
  pub sent : send json m out ≡ ok out'
  pub bytes : Bytes
  pub written : out'.out ≡ out.out ++ bytes
  pub small : length bytes < 2 ^ 31
  pub flag_byte : ℕ
  pub typ_byte : ℕ
  pub first : Bytes
  pub others : List Bytes
  pub chunked : r.chunks ≡ (flag_byte ∷ typ_byte ∷ first) ∷ others
  pub arrived : flag_byte ∷ typ_byte ∷ (first ++ flat others) ≡ bytes ++ rest

-- The bytes that `Send` writes do not depend on what the writer took before.
send_empty :
    (json : Json) (m : Message) (out out' : Writer) (bytes : Bytes)
    → send json m out ≡ ok out'
    → out'.out ≡ out.out ++ bytes
    → send json m (record { out = []; broken = false })
      ≡ ok (record { out = bytes; broken = false })
unfolding send write
send_empty json m out out' bytes h e =
    let (f, info, body, w) = send_inv json m out out' h in
    let same : encode f ≡ bytes =
      sym (drop-append_self out.out (encode f))
      ∙ ap (drop (length out.out)) (sym w ∙ e)
      ∙ drop-append_self out.out bytes in
    rw (info, body) (ap (λ b. ok (record { out = b; broken = false })) same)

-- A message that was delivered is what `get` reads, and what came behind it is left.
pub get-Delivered :
    {json : Json} {m : Message} {out out' : Writer} {r : Reader} {rest : Bytes}
    → Delivered json m out out' r rest
    → (r' : Reader) × (get json r ≡ ok (m, r')) × (flat r'.chunks ≡ rest)
get-Delivered {json = json} {m = m} {out = out} {out' = out'} {r = r} {rest = rest} d =
    let (r', g, left, same) =
      get-send json m (record { out = d.bytes; broken = false }) d.first rest d.others d.flag_byte
        d.typ_byte r.last d.text (send_empty json m out out' d.bytes d.sent d.written) d.small
        d.arrived in
    (r', ap (λ cs. get json (record { chunks = cs; last = r.last })) d.chunked ∙ g, left)
