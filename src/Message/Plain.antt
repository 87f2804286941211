-- ===== src/Message/Plain.antt =====
-- An encoding of every message that obeys the laws of the JSON interface: the fields one after
-- another, each with a zero behind it.
use ae_ro_go.Base.{
  ℕ, zero, suc, ◌≡◌, refl, ap, ◌∙◌, Bool, true, false, List, [], ◌∷◌, Bytes, Option, some, get_or,
}
use ae_ro_go.Base.Int.{ℤ, pos, negsuc}
use ae_ro_go.Message.{
  Message, login_request, login_response, proxy_request, proxy_response, heartbeat_request,
  heartbeat_response, pipe_request, conn_request, other, Kind, login_req, login_resp, proxy_req,
  proxy_resp, heartbeat_req, heartbeat_resp, pipe_req, conn_req,
}
use ae_ro_go.Message.Codec.{Json, IsText, kind_of}

abbrev pub word : Bytes → Bytes → Bytes
word [] rest = 0 ∷ rest
word (c ∷ f) rest = suc c ∷ word f rest

abbrev pub pack : List Bytes → Bytes
pack [] = []
pack (f ∷ fs) = word f (pack fs)

abbrev pub prepend : ℕ → List Bytes → List Bytes
prepend c [] = (c ∷ []) ∷ []
prepend c (f ∷ fs) = (c ∷ f) ∷ fs

abbrev pub unpack : Bytes → List Bytes
unpack [] = []
unpack (zero ∷ s) = [] ∷ unpack s
unpack (suc c ∷ s) = prepend c (unpack s)

unpack-word : (f rest : Bytes) → unpack (word f rest) ≡ f ∷ unpack rest
unpack-word [] rest = refl
unpack-word (c ∷ f) rest = ap (prepend c) (unpack-word f rest)

unpack-pack : (fs : List Bytes) → unpack (pack fs) ≡ fs
unpack-pack [] = refl
unpack-pack (f ∷ fs) = unpack-word f (pack fs) ∙ ap (◌∷◌ f) (unpack-pack fs)

abbrev pub int_field : ℤ → Bytes
int_field (pos n) = 0 ∷ n ∷ []
int_field (negsuc n) = 1 ∷ n ∷ []

abbrev pub int_of : Bytes → ℤ
int_of (zero ∷ n ∷ []) = pos n
int_of (suc s ∷ n ∷ []) = negsuc n
int_of _ = pos 0

int_of-int_field : (z : ℤ) → int_of (int_field z) ≡ z
int_of-int_field (pos n) = refl
int_of-int_field (negsuc n) = refl

abbrev pub bool_field : Bool → Bytes
bool_field true = 1 ∷ []
bool_field false = []

abbrev pub bool_of : Bytes → Bool
bool_of [] = false
bool_of (b ∷ s) = true

bool_of-bool_field : (b : Bool) → bool_of (bool_field b) ≡ b
bool_of-bool_field true = refl
bool_of-bool_field false = refl

abbrev pub fields_of : Message → List Bytes
fields_of (login_request r) =
    (r.version ∷ []) ∷ r.auth_code ∷ int_field r.pool_size ∷ r.host_name ∷ r.os ∷ r.tag ∷ []
fields_of (login_response r) = r.client_id ∷ r.result ∷ []
fields_of (proxy_request r) = r.name ∷ r.typ ∷ r.port ∷ r.target ∷ bool_field r.enable ∷ []
fields_of (proxy_response r) = r.name ∷ r.port ∷ bool_field r.enable ∷ r.result ∷ []
fields_of (heartbeat_request r) = int_field r.timestamp ∷ []
fields_of (heartbeat_response r) = int_field r.time_send ∷ int_field r.time_recv ∷ []
fields_of (pipe_request r) = r.client_id ∷ []
fields_of (conn_request r) = r.proxy_name ∷ r.src_ip ∷ r.src_port ∷ r.dst_ip ∷ r.dst_port ∷ []
fields_of (other v) = []

abbrev pub field : List Bytes → ℕ → Bytes
field fs i = get_or fs i []

abbrev pub of_fields : Kind → List Bytes → Message
of_fields login_req fs = login_request (record {
  version = get_or (field fs 0) 0 0;
  auth_code = field fs 1;
  pool_size = int_of (field fs 2);
  host_name = field fs 3;
  os = field fs 4;
  tag = field fs 5;
})
of_fields login_resp fs = login_response (record { client_id = field fs 0; result = field fs 1 })
of_fields proxy_req fs = proxy_request (record {
  name = field fs 0;
  typ = field fs 1;
  port = field fs 2;
  target = field fs 3;
  enable = bool_of (field fs 4);
})
of_fields proxy_resp fs = proxy_response (record {
  name = field fs 0;
  port = field fs 1;
  enable = bool_of (field fs 2);
  result = field fs 3;
})
of_fields heartbeat_req fs = heartbeat_request (record { timestamp = int_of (field fs 0) })
of_fields heartbeat_resp fs =
    heartbeat_response (record { time_send = int_of (field fs 0); time_recv = int_of (field fs 1) })
of_fields pipe_req fs = pipe_request (record { client_id = field fs 0 })
of_fields conn_req fs = conn_request (record {
  proxy_name = field fs 0;
  src_ip = field fs 1;
  src_port = field fs 2;
  dst_ip = field fs 3;
  dst_port = field fs 4;
})

of_fields-fields_of : (m : Message) (k : Kind) → kind_of m ≡ some k → of_fields k (fields_of m) ≡ m
unfolding kind_of
of_fields-fields_of (login_request r) login_req h =
    ap (λ z. login_request (record r { pool_size = z })) (int_of-int_field r.pool_size)
of_fields-fields_of (login_response r) login_resp h = refl
of_fields-fields_of (proxy_request r) proxy_req h =
    ap (λ b. proxy_request (record r { enable = b })) (bool_of-bool_field r.enable)
of_fields-fields_of (proxy_response r) proxy_resp h =
    ap (λ b. proxy_response (record r { enable = b })) (bool_of-bool_field r.enable)
of_fields-fields_of (heartbeat_request r) heartbeat_req h =
    ap (λ z. heartbeat_request (record r { timestamp = z })) (int_of-int_field r.timestamp)
of_fields-fields_of (heartbeat_response r) heartbeat_resp h =
    ap
      (λ z.
        heartbeat_response (record { time_send = z; time_recv = int_of (int_field r.time_recv) }))
      (int_of-int_field r.time_send)
    ∙ ap (λ z. heartbeat_response (record r { time_recv = z })) (int_of-int_field r.time_recv)
of_fields-fields_of (pipe_request r) pipe_req h = refl
of_fields-fields_of (conn_request r) conn_req h = refl
of_fields-fields_of _ _ h = absurd cc

of_fields_kind : (k : Kind) (fs : List Bytes) → kind_of (of_fields k fs) ≡ some k
unfolding kind_of
of_fields_kind login_req fs = refl
of_fields_kind login_resp fs = refl
of_fields_kind proxy_req fs = refl
of_fields_kind proxy_resp fs = refl
of_fields_kind heartbeat_req fs = refl
of_fields_kind heartbeat_resp fs = refl
of_fields_kind pipe_req fs = refl
of_fields_kind conn_req fs = refl

abbrev pub to_text : Message → Option Bytes
to_text m = some (pack (fields_of m))

abbrev pub of_text : Kind → Bytes → Option Message
of_text k b = some (of_fields k (unpack b))

pub of_text-to_text :
    (m : Message) (k : Kind) (b : Bytes)
    → IsText m
    → kind_of m ≡ some k
    → to_text m ≡ some b
    → of_text k b ≡ some m
of_text-to_text m k b t h e =
    let same : b ≡ pack (fields_of m) = cc in
    rw (same, unpack-pack (fields_of m)) (ap (λ m'. some m') (of_fields-fields_of m k h))

pub of_text_kind : (k : Kind) (b : Bytes) (m : Message) → of_text k b ≡ some m → kind_of m ≡ some k
of_text_kind k b m h =
    let same : m ≡ of_fields k (unpack b) = cc in rw same (of_fields_kind k (unpack b))

abbrev pub plain : Json
plain = record {
  marshal = to_text;
  unmarshal = of_text;
  unmarshal-marshal = of_text-to_text;
  unmarshal_kind = of_text_kind;
}
