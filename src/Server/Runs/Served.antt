-- ===== src/Server/Runs/Served.antt =====
-- Runs of the whole server: a client logs in, its manager is closed, and `Run` ends.
use ae_ro_go.Base.{
  ℕ, ◌≡◌, ◌≢◌, refl, true, false, [], ◌∷◌, Bytes, bytes_eq, codes, none, some, get_elem?, arith,
}
use ae_ro_go.Base.Int.{pos}
use ae_ro_go.Base.Dict.{lookup, insert}
use ae_ro_go.Util.Whole.{whole}
use ae_ro_go.Message.{login_response, login_request, ok, eof, type_req_map}
use ae_ro_go.Message.Frame.{
  read, read_once, read_full, read_full_loop, keep, get_int32, byte_at, read_payload,
}
use ae_ro_go.Message.Codec.{get, lookup_type}
use ae_ro_go.Message.Sample.{sample, login}
use ae_ro_go.Server.World.{World, send_on, close_conn}
use ae_ro_go.Server.Manager.{Manager, new_manager, get_message}
use mathlib.Core.Path.{subst}
use ae_ro_go.Base.Chan.{done, recv}
use ae_ro_go.Server.Manager.Release.{shut, close_manager-finished}
use ae_ro_go.Server.Manager.Closing.{close_proxies}
use ae_ro_go.Server.Manager.Running.{run_round, handle_received}
use ae_ro_go.Server.Manager.Steps
use ae_ro_go.Server.Registry.{Server, find_manager, manager_done, check_login, register_manager}
use ae_ro_go.Server.Registry.Streams.{handle_stream, handle_first, handle_login}
use ae_ro_go.Server.Registry.StreamLaws.{Kept, check_login_iff}
use ae_ro_go.Server.System.{
  System, running, ended, new_server, Reach, here, later, take_in, put, site, stream, acts, ends,
}
use ae_ro_go.Server.System.Served.{stream_kept, managers_listed, manager_done_only}
use ae_ro_go.Server.Runs.{config, quiet, fresh, fresh-Inv, ports, env, login_frame}

abbrev start : System whole
start = new_server whole config ports quiet

abbrev id : Bytes
id = codes "abcdefgh"

abbrev welcome : World
welcome = send_on 7 (login_response (record { client_id = id; result = codes "ok" })) quiet

abbrev served : Server whole
served = record { config = config; managers = insert id 0 []; heap = fresh ∷ []; world = welcome }

reads : get sample login_frame ≡ ok (login_request login, record { chunks = []; last = eof })
unfolding get read read_once read_full read_full_loop keep get_int32 lookup_type byte_at
    read_payload type_req_map bytes_eq
reads = refl

allowed : check_login config login ≡ none
allowed = (check_login_iff config login).1 (refl, (omega arith, tt))

logs_in : handle_stream whole sample start.server 7 id (pos 1000) login_frame ≡ served
unfolding handle_stream handle_first handle_login register_manager
logs_in = rw (reads, handle_stream, allowed, handle_login) refl

abbrev arrived : System whole
arrived = take_in whole start served

arrives : Reach whole start arrived
unfolding lookup
arrives =
    subst (λ x. Reach whole start (take_in whole start x)) logs_in
      (later here (stream sample 7 id (pos 1000) login_frame refl))

abbrev closed : System whole
closed = put whole arrived 0 (shut whole fresh) (close_conn 7 welcome) ports running

closes : Reach whole start closed
unfolding new_manager close_proxies
closes = later arrives (
    acts 0 fresh running refl refl
      (Steps.closes (close_manager-finished whole fresh welcome fresh-Inv refl)))

abbrev gone : System whole
gone = put whole closed 0 (shut whole fresh) (close_conn 7 welcome) ports ended

run_ends :
    run_round whole env (site whole closed (shut whole fresh))
    ≡ done (false, site whole closed (shut whole fresh))
unfolding run_round handle_received get_message recv new_manager
run_ends = refl

leaves : Reach whole start gone
leaves = later closes (ends 0 (shut whole fresh) env refl refl run_ends)

stream_kept_example :
    Kept whole
      (handle_stream whole sample arrived.server 8 (codes "bcdefghi") (pos 2000) login_frame)
      8
stream_kept_example =
    stream_kept whole config ports quiet sample 8 (codes "bcdefghi") (pos 2000) login_frame arrives

managers_listed_example :
    ((p : ℕ) (m : Manager whole)
      → get_elem? arrived.server.heap p ≡ some m
      → m.closed ≡ false
      → find_manager whole arrived.server m.client_id ≡ some (p, m))
    × ((k : Bytes) (p : ℕ)
        → lookup k arrived.server.managers ≡ some p
        → (m : Manager whole) × (find_manager whole arrived.server k ≡ some (p, m))
          × (m.client_id ≡ k))
managers_listed_example = managers_listed whole config ports quiet arrives

manager_done_only_example :
    let t = (manager_done whole gone.server 0 (shut whole fresh)).1 in
    ((manager_done whole gone.server 0 (shut whole fresh)).0 ≡ true)
    × (t.heap ≡ gone.server.heap)
    × (t.world ≡ gone.server.world)
    × (find_manager whole gone.server (shut whole fresh).client_id ≡ some (0, shut whole fresh))
    × (lookup (shut whole fresh).client_id t.managers ≡ none)
    × ((k : Bytes)
        → (shut whole fresh).client_id ≢ k
        → lookup k t.managers ≡ lookup k gone.server.managers)
manager_done_only_example =
    manager_done_only whole config ports quiet 0 (shut whole fresh) leaves refl refl
