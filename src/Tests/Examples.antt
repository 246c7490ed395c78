-- ===== src/Tests/Examples.antt =====
-- The theorems on statistics, messages, generators and configuration at concrete inputs.
use hvbench.Base.{
  ◌/◌, if◌then◌else◌, text_eqb, ◌+◌, ◌*◌, ◌%◌, ◌^◌, ◌≡◌, refl, ◌↔◌, [], ◌∷◌, none, some, arith,
  codes, text_key, get_elem?,
}
use hvbench.Base.Int.{pos, to_u32}
use hvbench.Base.Result.{ok}
use hvbench.Base.Dict.{lookup}
use hvbench.Msg.{ofpt_key, ofpt_eqb, str, rstr, latency_types, echo_request, flow_mod}
use hvbench.Msg.Messages.{make, get_message_factory, gen_of, scheduled}
use hvbench.Msg.Laws.{contains, lookup-str_iff, make-get_message_factory}
use hvbench.Stats.Latency.{received, note}
use hvbench.Stats.Latency.Spec.{Answers, received-Answers}
use hvbench.Stats.Latency.Loss.{
  Ends, replies, received_then_sent, note_all, replies_in_order, overtaken_reply,
  received_before_sent,
}
use hvbench.Generator.Constant.{inter_arrival}
use hvbench.Generator.Constant.Schedule.{nexts, get_elem?-nexts, inter_arrival-rounded}
use hvbench.Etcd.{Server}
use hvbench.Tests.Libraries.{fluid_example}
use hvbench.Tests.Inputs.{q, a, first, second, third, stats, steady}

received-Answers_example :
    Answers q a stats
      (to_u32 (pos 2))
      5000
      (first ∷ second ∷ third ∷ [])
      (received q a stats (pos 2) 3 5000)
received-Answers_example = received-Answers q a stats (pos 2) 3 5000

replies_in_order_example :
    Ends q a
      (replies q a ((first, 5000) ∷ (second, 6000) ∷ (third, 6500) ∷ []) stats)
      []
      (note_all q a ((first, 5000) ∷ (second, 6000) ∷ (third, 6500) ∷ []) [])
replies_in_order_example =
    replies_in_order q a ((first, 5000) ∷ (second, 6000) ∷ (third, 6500) ∷ []) stats refl
      (omega arith)

overtaken_reply_example :
    Ends q a (replies q a ((second, 5000) ∷ (first, 6000) ∷ []) stats) [] (note a second 5000 [])
overtaken_reply_example =
    overtaken_reply q a stats first second (first ∷ []) (third ∷ []) 5000 6000 (omega arith)
      (omega arith) refl (omega arith) (omega arith)

received_before_sent_example :
    Ends q a
      (received_then_sent q a stats (pos 9) echo_request 3 4000 5000)
      (record { xid = to_u32 (pos 9); type = echo_request; tp = 4000 } ∷ [])
      []
unfolding to_u32
received_before_sent_example =
    received_before_sent q a stats (pos 9) echo_request 3 4000 5000 (omega arith) (λ t h. refl)

lookup-str_iff_example :
    (lookup flow_mod str ≡ some (codes "FLOW_MOD"))
    ↔ (lookup (codes "FLOW_MOD") rstr ≡ some flow_mod)
lookup-str_iff_example = lookup-str_iff flow_mod (codes "FLOW_MOD")

make-get_message_factory_example :
    ((make fluid_example (get_message_factory (codes "FLOW_MOD"))).0.type ≡ flow_mod)
    × ((make fluid_example (get_message_factory (codes "FLOW_MOD"))).0.has_reply
        ≡ contains latency_types flow_mod)
unfolding contains str lookup ofpt_eqb
make-get_message_factory_example =
    make-get_message_factory fluid_example flow_mod (codes "FLOW_MOD") refl refl

get_elem?-nexts_example :
    get_elem? (nexts fluid_example 5 steady).0 2
    ≡ some (
        scheduled
          (5000 + 0 + (2 + 1) * 100_000_000)
          (gen_of fluid_example steady.msg_factory.class ((0 + (2 + 1)) % 2 ^ 32)))
get_elem?-nexts_example = get_elem?-nexts fluid_example 5 2 steady (omega arith)

-- A third of a second, to 53 bits.
inter_arrival-rounded_example : inter_arrival 3 ≡ ok (5_592_405_333_333_333 / 2 ^ 24)
inter_arrival-rounded_example =
    inter_arrival-rounded 3 5_592_405_333_333_333 24 (omega arith) (omega arith) (omega arith)
      (omega arith)

-- A server that holds nothing, and the same with the port written as an absolute path.
abbrev nothing : Server
nothing path = none

abbrev with_port : Server
with_port path = if text_eqb path (codes "/base/port") then some ((path, codes "1") ∷ []) else none
