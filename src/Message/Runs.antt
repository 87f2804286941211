-- ===== src/Message/Runs.antt =====
-- Runs of the framing and of `Get` and `Send` at concrete inputs.
use ae_ro_go.Base.{flat, ◌≡◌, ◌≢◌, refl, false, [], ◌∷◌, ◌++◌, codes, arith}
use ae_ro_go.Message.{Message, pipe_request, eof, ok, get_msg_info}
use ae_ro_go.Message.Frame.{Reader, encode, put_int32, write}
use ae_ro_go.Message.Codec.{get, send}
use ae_ro_go.Message.CodecLaws.{get-send, get_one_byte}
use ae_ro_go.Message.Sample.{sample}

abbrev empty_pipe : Message
empty_pipe = pipe_request (record { client_id = [] })

get-send_example :
    (r' : Reader) × (get sample (record {
      chunks = (b'<' ∷ b'q' ∷ 0 ∷ 0 ∷ []) ∷ (0 ∷ 2 ∷ b'{' ∷ []) ∷ (b'}' ∷ []) ∷ [];
      last = eof;
    })
      ≡ ok (empty_pipe, r'))
    × (flat r'.chunks ≡ [])
    × (r'.last ≡ eof)
unfolding send get_msg_info write encode put_int32
get-send_example =
    get-send sample empty_pipe
      (record { out = codes "<q" ++ 0 ∷ 0 ∷ 0 ∷ 2 ∷ codes "{}"; broken = false }) (0 ∷ 0 ∷ []) []
      ((0 ∷ 2 ∷ b'{' ∷ []) ∷ (b'}' ∷ []) ∷ []) b'<' b'q' eof tt refl (omega arith) refl

get_one_byte_example :
    get sample
      (record { chunks = (b'<' ∷ []) ∷ (b'q' ∷ 0 ∷ 0 ∷ 0 ∷ 2 ∷ codes "{}") ∷ []; last = eof })
    ≢ ok (empty_pipe, record { chunks = []; last = eof })
get_one_byte_example =
    get_one_byte sample b'<' ((b'q' ∷ 0 ∷ 0 ∷ 0 ∷ 2 ∷ codes "{}") ∷ []) eof
      (empty_pipe, record { chunks = []; last = eof })
