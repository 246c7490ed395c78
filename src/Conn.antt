-- ===== src/Conn.antt =====
-- `OFConnWrapper` (src/of/ofconnwrapper.hpp): the connection to the switch, with a count of the
-- bytes sent. Whether libfluid's connection is alive is read at each call.
use hvbench.Base.{ℕ, ◌+◌, ◌%◌, ◌^◌, Bool, List, [], ◌∷◌, Text, if◌then◌else◌}
use hvbench.Msg.Messages.{ScheduledMsg}

pub record Conn : Type 0 where
  -- The id of the wrapped connection.
  pub id : ℕ
  pub dp : ℕ
  -- A `uint64_t`.
  pub byte_cnt : ℕ

-- The constructor.
unfoldable pub wrap : ℕ → ℕ → Conn
wrap id dp = record { id = id; dp = dp; byte_cnt = 0 }

-- `send(msg)`: the connection after it, and what goes out.
unfoldable pub send : Bool → ScheduledMsg → Conn → Conn × List Text
send is_alive m c =
    if is_alive
    then (record c { byte_cnt = (c.byte_cnt + m.of_msg.pkt_len) % 2 ^ 64 }, m.of_msg.pkt ∷ [])
    else (c, [])

-- `send_raw(buffer, pkt_len)`, which counts nothing.
unfoldable pub send_raw : Bool → Text → List Text
send_raw is_alive buffer = if is_alive then buffer ∷ [] else []
