-- ===== src/Controller/Laws/Turns.antt =====
-- No turn of the sending thread fails.
use mathlib.Core.Path.{subst}
use hvbench.Base.{◌≡◌, refl, sym, ◌∙◌, inl, inr, Bool-cases, List, [], arith, ltb, ◌==◌}
use hvbench.Base.Int.{ℤ, to_i32}
use hvbench.Base.Result.{ok}
use hvbench.Base.Dict.{lookup}
use hvbench.Msg.{ofpt_eqb, str}
use hvbench.Msg.Messages.{Time, ScheduledMsg}
use hvbench.Msg.Laws.{IsRequest, IsRequest-IsNamed}
use hvbench.Conn.{send}
use hvbench.Stats.Latency.Named.{Named, reset-Named, sent-Named, visit_latency_total}
use hvbench.Stats.Collector
use hvbench.Stats.Collector.{Collector, visit_controller, visit_latency, visit_counters, visit_conn}
use hvbench.Generator.Dispatch.Valid.{IsValid, next-Draws, set_time_reference-IsValid}
use hvbench.Controller.Defs.{Externals, Controller, setup_switch}
use hvbench.Controller.Run.{
  Tenant, Phase, awaiting_switch, setting_up, fetching, waiting, recording, finished, Reading,
  Effect, accept, report, try_send, record_sent, turn,
}
use hvbench.Controller.Laws.Steps.{accept-Keeps}
use hvbench.Controller.Laws.Ready.{HasConn, IsReady, Succeeds}

module _ (x : Externals) where
  visit_controller_total :
      (rd : Reading) (c : Controller x) (col : Collector)
      → (r : Collector) × (visit_controller x.boost rd.visit_now rd.stamp c.start c.counters col
          ≡ ok r)
  unfolding visit_controller visit_counters lookup str ofpt_eqb
  visit_controller_total rd c col = (_, refl)

  accept_total :
      (rd : Reading) (c : Controller x) (col : Collector)
      → HasConn c.conn
      → Named x.queue x.acc c.latency_stats
      → (r : Collector) × (d : Controller x) × (accept x rd c col ≡ ok (r, d))
  unfolding accept
  accept_total rd c col (k, up) n =
      let (col₁, first) = visit_controller_total rd c col in
      let (col₂, second) =
        visit_latency_total x.acc x.boost c.latency_stats.stats_latency col₁ n.1 in
      rw (accept, first, second, up) (_, _, refl)

  report_total :
      (rd : Reading) (t : Tenant x)
      → HasConn t.controller.conn
      → Named x.queue x.acc t.controller.latency_stats
      → (t' : Tenant x) × (fx : List Effect) × (report x rd t ≡ ok (t', fx))
        × (t'.phase ≡ t.phase)
        × (t'.generator ≡ t.generator)
        × HasConn t'.controller.conn
        × Named x.queue x.acc t'.controller.latency_stats
  unfolding report
  report_total rd t up n = elim (Bool-cases (t.last_stat_time == rd.ux_time)) [
    | inl same ↦ rw (report, same) (t, [], refl, refl, refl, up, n)
    | inr later ↦
        let (col, d, done) = accept_total rd t.controller Collector.create up n in
        let (kept, reset_) = accept-Keeps x rd t.controller Collector.create done in
        rw (report, later, done)
          (
            _,
            _,
            refl,
            refl,
            refl,
            (up.0, kept.conn ∙ up.1),
            rw reset_ (reset-Named x.queue x.acc t.controller.latency_stats n),
          )
  ]

  try_send_total :
      (rd : Reading) (m : ScheduledMsg) (t : Tenant x)
      → IsValid x.random t.generator
      → t.phase ≡ waiting m
      → HasConn t.controller.conn
      → IsRequest m.of_msg.type
      → Named x.queue x.acc t.controller.latency_stats
      → Succeeds x (try_send x rd m t)
  unfolding try_send send
  try_send_total rd m t v e (k, up) request n = elim (Bool-cases (ltb rd.now m.time_ns)) [
    | inl early ↦
        rw (try_send, early)
          (
            t,
            [],
            refl,
            record {
              generator = v;
              ready =
                  subst (λ p. IsReady p t.controller.switch_up t.controller.conn) (sym e)
                    ((k, up), request);
              named = n;
            },
          )
    | inr due ↦
        rw (try_send, due, up)
          (_, _, refl, record { generator = v; ready = ((_, refl), request); named = n })
  ]

  record_sent-Named :
      (m : ScheduledMsg) (late : ℤ) (now : Time) (c : Controller x)
      → IsRequest m.of_msg.type
      → Named x.queue x.acc c.latency_stats
      → Named x.queue x.acc (record_sent x m late now c).latency_stats
  unfolding record_sent
  record_sent-Named m late now c request n = elim (Bool-cases m.awaits_reply) [
    | inl awaits ↦ rw awaits (
        sent-Named x.queue x.acc c.latency_stats (to_i32 m.of_msg.xid) m.of_msg.type now
          (IsRequest-IsNamed m.of_msg.type request) n)
    | inr none_ ↦ rw none_ n
  ]

  pub turn_total :
      (p : Phase) (rd : Reading) (t : Tenant x)
      → t.phase ≡ p
      → IsValid x.random t.generator
      → IsReady p t.controller.switch_up t.controller.conn
      → Named x.queue x.acc t.controller.latency_stats
      → Succeeds x (turn x p rd t)
  unfolding turn setup_switch record_sent
  turn_total awaiting_switch rd t e v r n = elim (Bool-cases t.controller.switch_up) [
    | inl up ↦
        let c : HasConn t.controller.conn = elim r [ inl down ↦ absurd (cc) | inr c ↦ c ] in
        rw (turn, up) (_, _, refl, record { generator = v; ready = c; named = n })
    | inr down ↦
        let stays : turn x awaiting_switch rd t ≡ ok (t, []) = ground arith in
        (
          t,
          [],
          stays,
          record {
            generator = v;
            ready = subst (λ p. IsReady p t.controller.switch_up t.controller.conn) (sym e) r;
            named = n;
          },
        )
  ]
  turn_total setting_up rd t e v r n =
      rw (turn, setup_switch, r.1)
        (
          _,
          _,
          refl,
          record {
            generator = set_time_reference-IsValid x.random rd.now t.generator v;
            ready = (r.0, refl);
            named = n;
          },
        )
  turn_total fetching rd t e v r n = elim (Bool-cases t.controller.running) [
    | inl up ↦
        let (m, g, drawn, request, _, _, valid) = next-Draws x.random x.fluid t.generator v in
        rw (turn, up, drawn)
          (_, _, refl, record { generator = valid; ready = (r, request); named = n })
    | inr down ↦ rw (turn, down) (_, _, refl, record { generator = v; ready = r; named = n })
  ]
  turn_total (waiting m) rd t e v r n =
      let (t₁, fx, first, phase, same, up, named) = report_total rd t r.0 n in
      let (t₂, fx₂, second, sound) = try_send_total rd m t₁ (rw same v) (phase ∙ e) up r.1 named in
      rw (turn, first, second) (_, _, refl, sound)
  turn_total (recording m late now) rd t e v r n = (
    _,
    _,
    refl,
    record { generator = v; ready = r.0; named = record_sent-Named m late now t.controller r.1 n },
  )
  turn_total finished rd t e v r n = (
    t,
    [],
    refl,
    record {
      generator = v;
      ready = subst (λ p. IsReady p t.controller.switch_up t.controller.conn) (sym e) r;
      named = n;
    },
  )
