-- ===== src/Client/Reconnect.antt =====
-- client/client.go: `Run`, which logs in again and again, and `connectServer`.
use ae_ro_go.Base.{
  ℕ, suc, ◌+◌, ◌*◌, ◌%◌, ◌≡◌, refl, Bool, List, [], ◌∷◌, ◌++◌, Bytes, Option, none, some, ◌==◌,
  if◌then◌else◌, arith,
}
use ae_ro_go.Message.Frame.{Reader, Writer}
use ae_ro_go.Message.Codec.{Json}
use ae_ro_go.Client.{Client}
use ae_ro_go.Client.Agent.{Agent, Clock, new_agent, give_back}
use ae_ro_go.Client.Login.{LoginError, login}

-- What `connectServer` comes to: no connection, a connection without a stream, or a stream, with its
-- two ends; and then the clock, and what the agent is like at the end of its `Run`.
pub data Dialed : Type 0 where
  no_conn no_stream : Dialed
  dialed : Writer → Reader → Clock → (Agent → Agent) → Dialed

-- The locals of `Run`, the seconds that it has slept, the newest last, and the connections to the
-- server that were made and that the client has not closed.
pub record Retry : Type 0 where
  pub client : Client
  pub try_count : ℕ
  pub naps : List ℕ
  pub open_conns : ℕ

-- The start of a round.
unfoldable pub count_try : Retry → Retry
count_try r =
    let n = r.try_count + 1 in
    record r { try_count = n; naps = if n % 10 == 0 then r.naps ++ (n * 2) ∷ [] else r.naps }

unfoldable pub try_later : Retry → Retry
try_later r = record r { naps = r.naps ++ 6 ∷ [] }

-- The end of a round with a stream: `NewAgent` and its `Run`, up to its end, or the next try. The
-- client's proxies are those of the agent then, the started ones too. `Login` and the agent close the stream, but not the connection that it came from.
unfoldable pub settle_round :
    Clock → (Agent → Agent) → Option LoginError × Client × Bool → Retry → Retry
settle_round now run (none, client, closed) r = record r {
  client = give_back (run (new_agent client now)) client;
  try_count = 0;
  naps = r.naps ++ 1 ∷ [];
}
settle_round now run (some why, client, closed) r = try_later (record r { client = client })

-- A round of `Run`.
unfoldable pub run_try : Json → Bytes → Dialed → Retry → Retry
run_try json os no_conn r = try_later (count_try r)
run_try json os no_stream r =
    let counted = count_try r in try_later (record counted { open_conns = suc counted.open_conns })
run_try json os (dialed out reader now run) r =
    let counted = count_try r in
    settle_round now run (login json os out reader r.client)
      (record counted { open_conns = suc counted.open_conns })

unfoldable pub run_tries : Json → Bytes → List Dialed → Retry → Retry
run_tries json os [] r = r
run_tries json os (d ∷ ds) r = run_tries json os ds (run_try json os d r)

-- The connections that were made.
abbrev pub conns : List Dialed → ℕ
conns [] = 0
conns (no_conn ∷ ds) = conns ds
conns (no_stream ∷ ds) = suc (conns ds)
conns (dialed out reader now run ∷ ds) = suc (conns ds)

settle_round-open_conns :
    (now : Clock) (run : Agent → Agent) (o : Option LoginError × Client × Bool) (r : Retry)
    → (settle_round now run o r).open_conns ≡ r.open_conns
unfolding settle_round try_later
settle_round-open_conns now run (none, client, closed) r = refl
settle_round-open_conns now run (some why, client, closed) r = refl

-- Every connection that `Run` makes stays open: there are as many more as were made, whether the
-- logins went well or not.
pub run_tries-open_conns :
    (json : Json) (os : Bytes) (ds : List Dialed) (r : Retry)
    → (run_tries json os ds r).open_conns ≡ r.open_conns + conns ds
unfolding run_tries run_try try_later count_try
run_tries-open_conns json os [] r = omega arith
run_tries-open_conns json os (no_conn ∷ ds) r = run_tries-open_conns json os ds _
run_tries-open_conns json os (no_stream ∷ ds) r =
    let rest = run_tries-open_conns json os ds (run_try json os no_stream r) in omega arith
run_tries-open_conns json os (dialed out reader now run ∷ ds) r =
    let rest = run_tries-open_conns json os ds (run_try json os (dialed out reader now run) r) in
    let kept =
      settle_round-open_conns now run (login json os out reader r.client)
        (record (count_try r) { open_conns = suc (count_try r).open_conns }) in
    omega arith
