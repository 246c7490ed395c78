-- ===== src/Controller/Laws/Bytes.antt =====
-- The bytes that a connection counts are those of the generated messages that went out.
use mathlib.Core.Path.{subst}
use hvbench.Base.{
  Option-cases, ℕ, ◌+◌, ◌%◌, ◌^◌, ◌≡◌, refl, sym, ◌∙◌, ap, inl, inr, Bool-cases, List, [], ◌∷◌,
  ◌++◌, Option, none, some, arith, All, length,
}
use hvbench.Base.Result.{ok, fault, >>=-eq-ok}
use hvbench.Msg.Messages.{ScheduledMsg}
use hvbench.Conn.{Conn, send}
use hvbench.Generator.Dispatch.{next, update}
use hvbench.Generator.Dispatch.Sized.{IsSized, next-IsSized}
use hvbench.Controller.Defs.{
  Externals, Controller, ConnEvent, event_established, connection_callback, message_callback,
  setup_switch, stop,
}
use hvbench.Controller.Run.{
  Tenant, Phase, awaiting_switch, setting_up, fetching, waiting, recording, finished, Reading,
  Effect, tx, produce, try_send, record_sent, turn, step, run, Event, turns, connection, message,
  stops, updates, studies,
}
use hvbench.Controller.Laws.Steps.{
  IsReport, report_lem, try_send_lem, turn_parts, message_callback-Keeps,
}
use hvbench.Controller.Laws.Connection.{IsLinked, step-IsLinked}

-- The bytes that go out to the switch.
abbrev pub tx_size : List Effect → ℕ
tx_size [] = 0
tx_size (tx bytes ∷ fx) = length bytes + tx_size fx
tx_size (produce r ∷ fx) = tx_size fx

tx_size-append : (xs ys : List Effect) → tx_size (xs ++ ys) ≡ tx_size xs + tx_size ys
tx_size-append [] ys = omega arith
tx_size-append (tx bytes ∷ xs) ys = omega (arith, tx_size-append xs ys)
tx_size-append (produce r ∷ xs) ys = tx_size-append xs ys

tx_size-reports : (fx : List Effect) → All IsReport fx → tx_size fx ≡ 0
tx_size-reports [] a = refl
tx_size-reports (tx bytes ∷ fx) a = absurd a.0
tx_size-reports (produce r ∷ fx) a = tx_size-reports fx a.1

-- The bytes that a turn sends where a generated message is at hand; the rules of the setup and the
-- echo replies go out otherwise.
abbrev pub turn_size : Phase → List Effect → ℕ
turn_size (waiting m) fx = tx_size fx
turn_size _ fx = 0

abbrev pub generated : Phase → Event → List Effect → ℕ
generated p (turns rd) fx = turn_size p fx
generated p (connection id e) fx = 0
generated p (message type msg now is_alive) fx = 0
generated p stops fx = 0
generated p (updates key value) fx = 0
generated p (studies study_id run_id) fx = 0

abbrev pub byte_cnt_of : Option Conn → ℕ
byte_cnt_of none = 0
byte_cnt_of (some k) = k.byte_cnt

-- The message at hand states its length.
abbrev pub HoldsSized : Phase → Type 0
HoldsSized (waiting m) = IsSized m.of_msg
HoldsSized _ = Unit

module _ (x : Externals) where
  abbrev pub bytes_of : Tenant x → ℕ
  bytes_of t = byte_cnt_of t.controller.conn

  -- The bytes of generated messages that a history sends.
  pub total : List Event → Tenant x → ℕ
  total [] t = 0
  total (e ∷ es) t = elim (step x t e) [
    | fault _ ↦ 0
    | ok (t', fx) ↦ generated t.phase e fx + total es t'
  ]

  -- The connection counts what was sent of generated messages.
  abbrev Counts : Tenant x → ℕ → Tenant x → Type 0
  Counts t n t' = bytes_of t' % 2 ^ 64 ≡ (bytes_of t + n) % 2 ^ 64

  try_send-Counts :
      (rd : Reading) (m : ScheduledMsg) (t : Tenant x) {t' : Tenant x} {fx : List Effect}
      → IsSized m.of_msg
      → try_send x rd m t ≡ ok (t', fx)
      → Counts t (tx_size fx) t'
  unfolding try_send send
  try_send-Counts rd m t s h = elim (Option-cases t.controller.conn) [
    | inl missing ↦ ground arith
    | inr (k, there) ↦ ground arith
  ]

  turn-Counts :
      (p : Phase) (rd : Reading) (t : Tenant x) {t' : Tenant x} {fx : List Effect}
      → HoldsSized p
      → turn x p rd t ≡ ok (t', fx)
      → Counts t (generated p (turns rd) fx) t'
  unfolding turn record_sent
  turn-Counts awaiting_switch rd t s h = ground arith
  turn-Counts setting_up rd t s h =
      let (bytes, _, last) = >>=-eq-ok (setup_switch x rd.is_alive t.controller) _ h in ground arith
  turn-Counts fetching rd t s h = elim (Bool-cases t.controller.running) [
    | inl up ↦
        let ((m, g), got, last) =
          >>=-eq-ok (next x.random x.fluid t.generator) _ (rw (up, turn) at h) in
        ground arith
    | inr down ↦ let last = rw (down, turn) at h in ground arith
  ]
  turn-Counts (waiting m) rd t {t'} {fx} s h =
      let (t₁, reported, bytes, first, second, all) = turn_parts x rd m t h in
      let (_, _, only, keeps) = report_lem x rd t first in
      let counts = try_send-Counts rd m t₁ s second in
      let nothing = tx_size-reports reported only in
      let size = ap tx_size all ∙ tx_size-append reported bytes in
      let same = ap byte_cnt_of keeps.conn in omega arith
  turn-Counts (recording m late now) rd t s h = ground arith
  turn-Counts finished rd t s h = ground arith

  turn-HoldsSized :
      (p : Phase) (rd : Reading) (t : Tenant x) {t' : Tenant x} {fx : List Effect}
      → t.phase ≡ p
      → HoldsSized p
      → turn x p rd t ≡ ok (t', fx)
      → HoldsSized t'.phase
  unfolding turn record_sent
  turn-HoldsSized awaiting_switch rd t {t'} e s h = elim (Bool-cases t.controller.switch_up) [
    | inl up ↦
        let last = rw (up, turn) at h in
        let now : t'.phase ≡ setting_up = ground arith in subst HoldsSized (sym now) tt
    | inr down ↦
        let last = rw (down, turn) at h in
        let now : t'.phase ≡ awaiting_switch = ground arith in subst HoldsSized (sym now) tt
  ]
  turn-HoldsSized setting_up rd t {t'} e s h =
      let (bytes, _, last) = >>=-eq-ok (setup_switch x rd.is_alive t.controller) _ h in
      let now : t'.phase ≡ fetching = ground arith in subst HoldsSized (sym now) tt
  turn-HoldsSized fetching rd t {t'} e s h = elim (Bool-cases t.controller.running) [
    | inl up ↦
        let ((m, g), got, last) =
          >>=-eq-ok (next x.random x.fluid t.generator) _ (rw (up, turn) at h) in
        let now : t'.phase ≡ waiting m = ground arith in
        subst HoldsSized (sym now) (next-IsSized x.random x.fluid t.generator got)
    | inr down ↦
        let last = rw (down, turn) at h in
        let now : t'.phase ≡ finished = ground arith in subst HoldsSized (sym now) tt
  ]
  turn-HoldsSized (waiting m) rd t {t'} e s h =
      let (t₁, _, _, first, second, _) = turn_parts x rd m t h in
      let (kept, _, _, _) = report_lem x rd t first in
      let (sent, _, _) = try_send_lem x rd m t₁ (kept ∙ e) second in
      elim sent [
        | inl (_, now, _) ↦ subst HoldsSized (sym now) s
        | inr (_, now) ↦ subst HoldsSized (sym now) tt
      ]
  turn-HoldsSized (recording m late now_) rd t {t'} e s h =
      let now : t'.phase ≡ fetching = ground arith in subst HoldsSized (sym now) tt
  turn-HoldsSized finished rd t {t'} e s h =
      let now : t'.phase ≡ finished = ground arith in subst HoldsSized (sym now) tt

  -- What sends no generated message and leaves the thread and the connection alone.
  stays-Counts :
      (t t' : Tenant x)
      → HoldsSized t.phase
      → t.phase ≡ t'.phase
      → t'.controller.conn ≡ t.controller.conn
      → Counts t 0 t' × HoldsSized t'.phase
  stays-Counts t t' s p c = let same = ap byte_cnt_of c in (omega arith, subst HoldsSized p s)

  linked-conn :
      (i id : ℕ) (e : ConnEvent) (c : Controller x)
      → IsLinked x i c
      → (connection_callback x id e c).conn ≡ c.conn
  unfolding connection_callback
  linked-conn i id event_established c l = rw l.0
  linked-conn i id _ c l = refl

  step-Counts :
      (i : ℕ) (t : Tenant x) (e : Event) {t' : Tenant x} {fx : List Effect}
      → IsLinked x i t.controller
      → HoldsSized t.phase
      → step x t e ≡ ok (t', fx)
      → Counts t (generated t.phase e fx) t' × HoldsSized t'.phase
  unfolding step stop
  step-Counts i t (turns rd) l s h =
      (turn-Counts t.phase rd t s h, turn-HoldsSized t.phase rd t refl s h)
  step-Counts i t (connection id e) {t'} l s h =
      let kept = linked-conn i id e t.controller l in
      stays-Counts t t' s (ground arith) (ground arith)
  step-Counts i t (message type msg now is_alive) {t'} l s h =
      let ((c, bytes), got, last) =
        >>=-eq-ok (message_callback x type msg now is_alive t.controller) _ h in
      let kept = message_callback-Keeps x type msg now is_alive t.controller got in
      stays-Counts t t' s (ground arith) (ground arith)
  step-Counts i t stops {t'} l s h = stays-Counts t t' s (ground arith) (ground arith)
  step-Counts i t (updates key value) {t'} l s h =
      let (g, _, last) = >>=-eq-ok (update x.random x.boost key value t.generator) _ h in
      stays-Counts t t' s (ground arith) (ground arith)
  step-Counts i t (studies study_id run_id) {t'} l s h =
      stays-Counts t t' s (ground arith) (ground arith)

  -- Over every history of events, the bytes that a linked controller's connection counts grow by
  -- those of the generated messages that went out, modulo 2^64: neither the rules of the setup nor the
  -- echo replies are counted, and no message is counted that did not go out.
  pub run-bytes :
      (i : ℕ) (es : List Event) (t : Tenant x) {t' : Tenant x} {fx : List Effect}
      → IsLinked x i t.controller
      → HoldsSized t.phase
      → run x es t ≡ ok (t', fx)
      → bytes_of t' % 2 ^ 64 ≡ (bytes_of t + total es t) % 2 ^ 64
  unfolding run total
  run-bytes i [] t l s h = ground arith
  run-bytes i (e ∷ es) t {t'} l s h =
      let ((t₁, fx₁), first, rest) = >>=-eq-ok (step x t e) _ h in
      let ((t₂, fx₂), later, last) = >>=-eq-ok (run x es t₁) _ rest in
      let (counts, holds) = step-Counts i t e l s first in
      let more = run-bytes i es t₁ (step-IsLinked x i t e first l) holds later in
      let same : t₂ ≡ t' = ground arith in
      let sum : total (e ∷ es) t ≡ generated t.phase e fx₁ + total es t₁ = rw (total, first) refl in
      let kept = ap bytes_of same in omega arith
