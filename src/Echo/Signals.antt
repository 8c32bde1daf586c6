-- ===== src/Echo/Signals.antt =====
-- The state of an echo session (internal/bfd/echo.go) against the signals that it was given.
use gobfd.Common.{ℕ, ◌+◌, ◌-◌, ◌≡◌, List, [], ◌∷◌, ltb, if◌then◌else◌, arith}
use gobfd.Packet.{State, down, up, diag_none, diag_echo_failed}
use gobfd.Echo.{
  EchoSession, returned, detect_fired, tx_fired, Event, input, recv, echo_recv_ch_size, step, on,
  run_loop, handle_echo_recv, handle_detect_timeout, transition_to, emit_notification, send_echo,
  rebuild_cached_packet, recv_echo,
}

-- The path as the session has seen it: no echo yet, an echo and no timeout behind it, or a timeout
-- since the last echo.
pub data Verdict : Type 0 where
  unheard alive failed : Verdict

-- The verdict, and how many echoes wait to be taken.
pub record Watch : Type 0 where
  pub verdict : Verdict
  pub waiting : ℕ

abbrev pub timeout : Verdict → Verdict
timeout alive = failed
timeout v = v

unfoldable pub watch : Event → Watch → Watch
watch recv w = if ltb w.waiting echo_recv_ch_size then record w { waiting = w.waiting + 1 } else w
watch (input env returned) w =
    if ltb 0 w.waiting then record { verdict = alive; waiting = w.waiting - 1 } else w
watch (input env (tx_fired seed)) w = w
watch (input env detect_fired) w = record w { verdict = timeout w.verdict }

unfoldable pub watch_all : List Event → Watch → Watch
watch_all [] w = w
watch_all (e ∷ rest) w = watch_all rest (watch e w)

abbrev pub state_of : Verdict → State
state_of alive = up
state_of v = down

abbrev pub diag_of : Verdict → ℕ
diag_of failed = diag_echo_failed
diag_of v = diag_none

-- The state, the diagnostic code and the channel of the session are those of the verdict.
pub record Shows (w : Watch) (es : EchoSession) : Type 0 where
  pub shows_state : es.state ≡ state_of w.verdict
  pub shows_diag : es.local_diag ≡ diag_of w.verdict
  pub shows_waiting : es.recv_ch ≡ w.waiting

on-Shows : (e : Event) (w : Watch) (es : EchoSession) → Shows w es → Shows (watch e w) (on e es)
unfolding on watch step recv_echo handle_echo_recv handle_detect_timeout transition_to
    emit_notification send_echo rebuild_cached_packet
on-Shows recv w es h = ground arith
on-Shows (input env returned) w es h = ground arith
on-Shows (input env (tx_fired seed)) w es h = ground arith
on-Shows (input env detect_fired) w es h = ground arith

-- Through every sequence of returned echoes, timeouts and transmissions, a session that shows what
-- was watched goes on to show it: it is in Up exactly while an echo was taken from its channel and
-- no detection timeout fired since, in Down otherwise, with the diagnostic code of a failed echo
-- exactly where a timeout ended an Up; and a signal that finds sixteen waiting is lost.
pub run_loop-Shows :
    (events : List Event) (w : Watch) (es : EchoSession)
    → Shows w es
    → Shows (watch_all events w) (run_loop events es)
unfolding run_loop watch_all
run_loop-Shows [] w es h = h
run_loop-Shows (e ∷ rest) w es h = run_loop-Shows rest (watch e w) (on e es) (on-Shows e w es h)
