-- ===== src/Server/Runs/Ending.antt =====
-- Runs of a manager that is closed, or too busy to ask for a pipe.
use ae_ro_go.Base.{◌≡◌, ◌↔◌, refl, true, false, [], ◌∷◌, some, length, replicate, arith}
use ae_ro_go.Base.Chan.{blocked, done}
use ae_ro_go.Util.Whole.{whole}
use ae_ro_go.Message.{pipe_request, proxy_request}
use ae_ro_go.Server.World.{World, IsOpen}
use ae_ro_go.Server.Manager.{Manager, new_manager, pop_pipe_conn}
use ae_ro_go.Server.Manager.Closing.{close_manager, finished}
use ae_ro_go.Server.Manager.Running.{Site, run_loop, run_round}
use ae_ro_go.Server.Manager.Release.{shut, shut-Inv}
use ae_ro_go.Server.Manager.Invariant.{Inv}
use ae_ro_go.Server.Manager.Ending.{run_loop_ends, pop_pipe_conn_waits, run_round_leaks}
use ae_ro_go.Server.Runs.{fresh, fresh-Inv, quiet, ports, env, request}

-- Closed, while a proxy request waited.
abbrev late : Manager whole
late = record (shut whole fresh) {
  recv_chan = record { buf = proxy_request request ∷ []; cap = 10; closed = true };
}

late-Inv : Inv whole late
late-Inv = record {
  send_closed = (shut-Inv whole fresh fresh-Inv).send_closed;
  recv_closed = refl;
  pool_closed = (shut-Inv whole fresh fresh-Inv).pool_closed;
  send_fits = (shut-Inv whole fresh fresh-Inv).send_fits;
  recv_fits = omega arith;
  pool_fits = (shut-Inv whole fresh fresh-Inv).pool_fits;
  pool_cap = (shut-Inv whole fresh fresh-Inv).pool_cap;
  pool_low = (shut-Inv whole fresh fresh-Inv).pool_low;
  pool_high = (shut-Inv whole fresh fresh-Inv).pool_high;
}

abbrev late_site : Site whole
late_site = record { mgr = late; range = ports; world = quiet }

run_loop_ends_example :
    (s' : Site whole) × (run_loop whole 2 (λ i. env) late_site ≡ some (done s'))
    × (s'.mgr.closed ≡ true)
run_loop_ends_example = run_loop_ends whole (λ i. env) late_site late-Inv refl

run_round_leaks_example :
    (s' : Site whole) × (run_round whole env late_site ≡ done (false, s'))
    × IsOpen 2 s'.world
    × ((w : World) → close_manager whole s'.mgr w ≡ finished s'.mgr w)
run_round_leaks_example =
    run_round_leaks whole env late_site request [] refl refl refl (λ addr. (_, refl))

-- Ten messages wait to be sent.
abbrev busy : Manager whole
busy = record fresh {
  send_chan = record {
    buf = replicate 10 (pipe_request (record { client_id = [] }));
    cap = 10;
    closed = false;
  };
}

busy-Inv : Inv whole busy
unfolding new_manager
busy-Inv = record {
  send_closed = refl;
  recv_closed = fresh-Inv.recv_closed;
  pool_closed = fresh-Inv.pool_closed;
  send_fits = omega arith;
  recv_fits = fresh-Inv.recv_fits;
  pool_fits = fresh-Inv.pool_fits;
  pool_cap = fresh-Inv.pool_cap;
  pool_low = fresh-Inv.pool_low;
  pool_high = fresh-Inv.pool_high;
}

pop_pipe_conn_waits_example :
    (pop_pipe_conn whole busy true ≡ blocked)
    ↔ ((busy.closed ≡ false) × (length busy.send_chan.buf ≡ busy.send_chan.cap))
pop_pipe_conn_waits_example = pop_pipe_conn_waits whole busy busy-Inv
