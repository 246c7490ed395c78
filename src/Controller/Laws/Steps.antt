-- ===== src/Controller/Laws/Steps.antt =====
-- What each part of a step leaves alone.
use hvbench.Base.{
  ℕ, ◌≤◌, ◌<◌, ◌≡◌, refl, ◌⊎◌, List, [], Bool, Bool-cases, inl, inr, ◌==◌, ◌++◌, Option, some,
  arith, Text, All,
}
use hvbench.Base.Int.{sub_ℕ}
use hvbench.Base.Result.{ok, >>=-eq-ok, or_fault, null_pointer}
use hvbench.Msg.{Ofpt, ofpt_key, of_value, features_reply, echo_reply, stats_reply}
use hvbench.Msg.Messages.{Time, ScheduledMsg}
use hvbench.Stats.Latency.{reset}
use hvbench.Stats.Collector
use hvbench.Stats.Collector.{Collector, visit_controller, visit_latency}
use hvbench.Generator.Abstract
use hvbench.Generator.Dispatch.{Generator, constant, tenant, set_time_reference}
use hvbench.Generator.Dispatch.Laws.{base_of}
use hvbench.Controller.Defs.{
  Externals, Controller, ConnEvent, event_established, connection_callback, message_callback,
  on_message, note_reply,
}
use hvbench.Controller.Run.{
  Tenant, waiting, recording, Reading, Effect, tx, produce, accept, report, try_send, turn,
}

-- An effect that sends nothing to the switch.
abbrev pub IsReport : Effect → Type 0
IsReport (tx _) = ⊥
IsReport (produce _) = Unit {0}

module _ (x : Externals) where
  -- The members of the controller that only the sending thread and the connection write.
  pub record Keeps (c d : Controller x) : Type 0 where
    pub counters : d.counters ≡ c.counters
    pub conn : d.conn ≡ c.conn
    pub switch_up : d.switch_up ≡ c.switch_up
    pub running : d.running ≡ c.running

  pub accept-Keeps :
      (rd : Reading) (c : Controller x) (col : Collector) {r : Collector} {d : Controller x}
      → accept x rd c col ≡ ok (r, d)
      → Keeps c d × (d.latency_stats ≡ reset x.queue x.acc c.latency_stats)
  unfolding accept
  accept-Keeps rd c col h =
      let (col₁, _, h₁) =
        >>=-eq-ok (visit_controller x.boost rd.visit_now rd.stamp c.start c.counters col) _ h in
      let (col₂, _, h₂) =
        >>=-eq-ok (visit_latency x.boost x.acc c.latency_stats.stats_latency col₁) _ h₁ in
      let (conn, _, h₃) = >>=-eq-ok (or_fault c.conn null_pointer) _ h₂ in ground arith

  pub report_lem :
      (rd : Reading) (t : Tenant x) {t' : Tenant x} {fx : List Effect}
      → report x rd t ≡ ok (t', fx)
      → (t'.phase ≡ t.phase)
        × (t'.generator ≡ t.generator)
        × All IsReport fx
        × Keeps t.controller t'.controller
  unfolding report
  report_lem rd t h = elim (Bool-cases (t.last_stat_time == rd.ux_time)) [
    | inl e ↦ let same = rw (e, report) at h in ground arith
    | inr e ↦
        let ((col, c), got, rest) =
          >>=-eq-ok (accept x rd t.controller Collector.create) _ (rw (e, report) at h) in
        let (kept, _) = accept-Keeps rd t.controller Collector.create got in ground arith
  ]

  pub try_send_lem :
      (rd : Reading) (m : ScheduledMsg) (t : Tenant x) {t' : Tenant x} {fx : List Effect}
      → t.phase ≡ waiting m
      → try_send x rd m t ≡ ok (t', fx)
      → (((rd.now < m.time_ns) × (t'.phase ≡ waiting m) × (fx ≡ []))
          ⊎ ((m.time_ns ≤ rd.now)
              × (t'.phase ≡ recording m (sub_ℕ rd.send_now m.time_ns) rd.send_now)))
        × (t'.generator ≡ t.generator)
        × (t'.controller.counters ≡ t.controller.counters)
  unfolding try_send
  try_send_lem rd m t e h = ground arith

  -- The two parts of a turn in the inner loop.
  pub turn_parts :
      (rd : Reading) (m : ScheduledMsg) (t : Tenant x) {t' : Tenant x} {fx : List Effect}
      → turn x (waiting m) rd t ≡ ok (t', fx)
      → (t₁ : Tenant x) × (reported : List Effect) × (bytes : List Effect) × (report x rd t
          ≡ ok (t₁, reported))
        × (try_send x rd m t₁ ≡ ok (t', bytes))
        × (fx ≡ reported ++ bytes)
  unfolding turn
  turn_parts rd m t h =
      let ((t₁, reported), first, then_) = >>=-eq-ok (report x rd t) _ h in
      let ((t₂, bytes), second, last) = >>=-eq-ok (try_send x rd m t₁) _ then_ in
      (t₁, reported, bytes, first, ground arith, ground arith)

  pub connection_callback_lem :
      (id : ℕ) (e : ConnEvent) (c : Controller x)
      → ((connection_callback x id e c).counters ≡ c.counters)
        × ((connection_callback x id e c).running ≡ c.running)
  unfolding connection_callback
  connection_callback_lem id event_established c = ground arith
  connection_callback_lem id _ c = (refl, refl)

  note_reply-Keeps :
      (xid type : ℕ) (now : Time) (c : Controller x) {d : Controller x} {bytes : List Text}
      → note_reply x xid type now c ≡ ok (d, bytes)
      → Keeps c d
  unfolding note_reply
  note_reply-Keeps xid type now c h = ground arith

  on_message-Keeps :
      (o : Option Ofpt) (type : ℕ) (msg : Text) (now : Time) (is_alive : Bool) (c : Controller x)
      {d : Controller x} {bytes : List Text}
      → on_message x o type msg now is_alive c ≡ ok (d, bytes)
      → Keeps c d
  unfolding on_message
  on_message-Keeps (some features_reply) type msg now is_alive c h = note_reply-Keeps _ _ now c h
  on_message-Keeps (some echo_reply) type msg now is_alive c h = note_reply-Keeps _ _ now c h
  on_message-Keeps (some stats_reply) type msg now is_alive c h = note_reply-Keeps _ _ now c h
  on_message-Keeps _ type msg now is_alive c h = ground arith

  pub message_callback-Keeps :
      (type : ℕ) (msg : Text) (now : Time) (is_alive : Bool) (c : Controller x) {d : Controller x}
      {bytes : List Text}
      → message_callback x type msg now is_alive c ≡ ok (d, bytes)
      → Keeps c d
  unfolding message_callback
  message_callback-Keeps type msg now is_alive c h =
      on_message-Keeps (of_value type) type msg now is_alive c h

  pub set_time_reference_lem :
      (t : Time) (g : Generator x.random)
      → (base_of x.random (set_time_reference x.random t g)).counters
        ≡ (base_of x.random g).counters
  unfolding set_time_reference Abstract.set_time_reference
  set_time_reference_lem t (constant g) = refl
  set_time_reference_lem t (tenant g) = refl
