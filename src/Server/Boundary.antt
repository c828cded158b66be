-- ===== src/Server/Boundary.antt =====
-- internal/server/stdlib_boundary.go: the connections that net/http closes before the handler runs.
pub mod Lifecycle
pub mod Label
use wavefront.Base.{
  ℕ, String, Bool, true, false, List, [], ◌∷◌, Option, none, some, if◌then◌else◌, eqb,
}
use wavefront.Base.Dict.{lookup, put, delete}
use wavefront.Json.{Bytes}
use wavefront.Server.StatusLine.{parse_status_line}

-- http.ConnState
pub data ConnState : Type 0 where
  state_new state_active state_idle state_hijacked state_closed : ConnState

-- sniffingConn: whether statusOnce was used, and the captured status, 0 for none.
pub record SniffingConn : Type 0 where
  pub once_done : Bool
  pub status : ℕ

-- sniffingConn.Write, without the bytes that net.Conn gets.
unfoldable pub write_conn : SniffingConn → Bytes → SniffingConn
write_conn c [] = c
write_conn c (b ∷ p) =
    if c.once_done then c else record { once_done = true; status = parse_status_line (b ∷ p) }

-- What the server keeps: connStateMap with the entries' handlerRan, the connections that Accept
-- wrapped, and the labels that the stdlib_boundary counter was incremented with, the latest first.
pub record Boundary : Type 0 where
  pub entries : List (ℕ × Bool)
  pub conns : List (ℕ × SniffingConn)
  pub counted : List String

-- What net/http does with a connection.
pub data Event : Type 0 where
  accepted handler_entered : Event
  state_changed : ConnState → Event
  written : Bytes → Event

module _ (itoa : ℕ → String) where
  abbrev pub status_or_unknown : ℕ → String
  status_or_unknown n = if eqb n 0 then "unknown" else itoa n

  -- boundaryStatusLabel
  abbrev pub boundary_status_label : Option SniffingConn → String
  boundary_status_label none = "unknown"
  boundary_status_label (some c) = status_or_unknown c.status

  -- The case of StateClosed, on what LoadAndDelete found.
  abbrev pub count_closed : Option Bool → Option SniffingConn → List String → List String
  count_closed none conn counted = counted
  count_closed (some true) conn counted = counted
  count_closed (some false) conn counted = boundary_status_label conn ∷ counted

  -- connState
  unfoldable pub conn_state : ℕ → ConnState → Boundary → Boundary
  conn_state c state_new s = s
  conn_state c state_active s = record s { entries = put eqb c false s.entries }
  conn_state c state_idle s = s
  conn_state c state_hijacked s = record s { entries = delete eqb c s.entries }
  conn_state c state_closed s = record s {
    entries = delete eqb c s.entries;
    counted = count_closed (lookup eqb c s.entries) (lookup eqb c s.conns) s.counted;
  }

  abbrev mark_entry : ℕ → Option Bool → List (ℕ × Bool) → List (ℕ × Bool)
  mark_entry c none entries = entries
  mark_entry c (some ran) entries = put eqb c true entries

  -- markHandlerSeen, before the handler that it wraps
  unfoldable pub mark_handler_seen : ℕ → Boundary → Boundary
  mark_handler_seen c s = record s { entries = mark_entry c (lookup eqb c s.entries) s.entries }

  abbrev pub write_to :
      ℕ → Bytes → Option SniffingConn → List (ℕ × SniffingConn) → List (ℕ × SniffingConn)
  write_to c p none conns = conns
  write_to c p (some conn) conns = put eqb c (write_conn conn p) conns

  -- One event on the connection `c`; sniffingListener.Accept wraps what it accepts.
  unfoldable pub step : ℕ → Event → Boundary → Boundary
  unfolding conn_state mark_handler_seen
  step c accepted s = record s {
    conns = put eqb c (record { once_done = false; status = 0 }) s.conns;
  }
  step c handler_entered s = mark_handler_seen c s
  step c (state_changed state) s = conn_state c state s
  step c (written p) s = record s { conns = write_to c p (lookup eqb c s.conns) s.conns }

  unfoldable pub run : List (ℕ × Event) → Boundary → Boundary
  run [] s = s
  run ((c, e) ∷ events) s = run events (step c e s)
