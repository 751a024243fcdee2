-- ===== src/Feed/Socket/Lifecycle.antt =====
-- The socket of the feed worker after any events.
use mathlib.Core.Path.{subst}
use nats_explorer.Prelude.{
  ℕ, zero, suc, ◌≤◌, ◌≢◌, Text, List, [], ◌∷◌, Bool, true, false, not, ◌||◌, Option, none, some,
  ◌≡◌, refl, sym, ◌∙◌, arith, if◌then◌else◌, inl, inr, Bool-cases, ◌==◌, text_eq,
}
use nats_explorer.Feed.Socket.{
  WsStatus, opened, closed, ReadyState, is_connecting, is_open, is_closing, Socket, Worker,
  initial_worker, same_status, set_status, send, connect, disconnect, or_timer, schedule_reconnect,
  is_current, on_open, on_close, on_error, on_connect, same_format, WorkerEvent, page_connects,
  page_disconnects, page_sends, socket_opens, socket_fails, socket_closes, timer_fires, handle,
  handle_all,
}
use nats_explorer.Feed.Socket.Fitting.{
  StateFits, StatusFits, Waits, TimerFits, IsSound, set_status-IsSound, connect-IsSound,
  disconnect-IsSound, fire-IsSound, send-IsSound,
}

current-manual :
    (n : ℕ) (ws : Option Socket) (manual : Bool) (sockets : ℕ) (timer : Option ℕ)
    → is_current n ws ≡ true
    → Waits ws manual sockets timer
    → (manual ≡ false) × (1 ≤ sockets)
current-manual n none manual sockets timer e h = absurd (cc (e))
current-manual n (some sock) manual sockets timer e h = h

state-status : (state : ReadyState) (status : WsStatus) → StateFits state status → status ≢ closed
state-status is_connecting status h e = absurd (cc (h, e))
state-status is_open status h e = absurd (cc (h, e))
state-status is_closing status h e = h e

current-status :
    (n : ℕ) (ws : Option Socket) {status : WsStatus}
    → is_current n ws ≡ true
    → StatusFits ws status
    → status ≢ closed
current-status n none e h = absurd (cc (e))
current-status n (some sock) {status} e h = state-status sock.ready_state status h

on_open-IsSound : (view : Text) (n : ℕ) (w : Worker) → IsSound w → IsSound (on_open view n w)
unfolding on_open send
on_open-IsSound view n w h = elim (Bool-cases (is_current n w.ws)) [
  | inl e ↦ rw e (
      set_status-IsSound opened _ h.announced refl (record {
        waits =
            current-manual n w.ws w.manually_closed w.sockets w.reconnect_timer e h.waiting.waits;
        timer = h.waiting.timer;
        delay_low = omega arith;
        delay_high = omega arith;
      }))
  | inr e ↦ rw e h
]

-- A socket that fails keeps the status.
on_error-IsSound : (n : ℕ) (w : Worker) → IsSound w → IsSound (on_error n w)
unfolding on_error
on_error-IsSound n w h = elim (Bool-cases (is_current n w.ws)) [
  | inl e ↦ rw e (record {
    fits = current-status n w.ws e h.fits;
    announced = h.announced;
    waiting = record {
      waits = current-manual n w.ws w.manually_closed w.sockets w.reconnect_timer e h.waiting.waits;
      timer = h.waiting.timer;
      delay_low = h.waiting.delay_low;
      delay_high = h.waiting.delay_high;
    };
  })
  | inr e ↦ rw e h
]

set_status-schedule_reconnect :
    (next : WsStatus) (w : Worker)
    → schedule_reconnect (set_status next w) ≡ set_status next (schedule_reconnect w)
unfolding set_status schedule_reconnect
set_status-schedule_reconnect next w = elim (Bool-cases (same_status w.status next)) [
  | inl e ↦ rw e refl
  | inr e ↦ rw e refl
]

set_status-manual :
    (next : WsStatus) (w : Worker) → (set_status next w).manually_closed ≡ w.manually_closed
unfolding set_status
set_status-manual next w = elim (Bool-cases (same_status w.status next)) [
  | inl e ↦ rw e refl
  | inr e ↦ rw e refl
]

or_timer-fits :
    (timer : Option ℕ) (delay : ℕ)
    → TimerFits timer
    → (1000 ≤ delay) × (delay ≤ 15000)
    → TimerFits (or_timer timer delay) × (or_timer timer delay ≢ none)
or_timer-fits none delay t d = (d, λ e. absurd (cc (e)))
or_timer-fits (some t) delay h d = (h, λ e. absurd (cc (e)))

none-Waits :
    (manual : Bool) (sockets : ℕ) (timer : Option ℕ)
    → (manual ≡ false) × (1 ≤ sockets)
    → timer ≢ none
    → Waits none manual sockets timer
none-Waits true sockets timer e n = absurd (cc (e.0))
none-Waits false zero timer e n = absurd (omega (arith, e.1))
none-Waits false (suc k) timer e n = n

retry-IsSound :
    (manual : Bool) (shut : Worker)
    → manual ≡ false
    → IsSound (schedule_reconnect shut)
    → IsSound (if not manual then schedule_reconnect shut else shut)
retry-IsSound true shut e h = absurd (cc (e))
retry-IsSound false shut e h = h

-- The retry after a socket that closed by itself.
lost-IsSound :
    (w : Worker)
    → (w.manually_closed ≡ false) × (1 ≤ w.sockets)
    → IsSound w
    → IsSound (schedule_reconnect (set_status closed (record w { ws = none })))
lost-IsSound w manual h =
    let retry =
      or_timer-fits w.reconnect_timer w.reconnect_delay h.waiting.timer
        (h.waiting.delay_low, h.waiting.delay_high) in
    subst IsSound (sym (set_status-schedule_reconnect closed (record w { ws = none }))) (
      unfold schedule_reconnect in
      set_status-IsSound closed
        (record w { ws = none; reconnect_timer = or_timer w.reconnect_timer w.reconnect_delay })
        h.announced refl
        (record {
          waits = none-Waits w.manually_closed w.sockets _ manual retry.1;
          timer = retry.0;
          delay_low = h.waiting.delay_low;
          delay_high = h.waiting.delay_high;
        }))

on_close-IsSound : (n : ℕ) (w : Worker) → IsSound w → IsSound (on_close n w)
unfolding on_close
on_close-IsSound n w h = elim (Bool-cases (is_current n w.ws)) [
  | inl e ↦
      let manual =
        current-manual n w.ws w.manually_closed w.sockets w.reconnect_timer e h.waiting.waits in
      rw e (
        retry-IsSound _ _ (set_status-manual closed (record w { ws = none }) ∙ manual.0)
          (lost-IsSound w manual h))
  | inr e ↦ rw e h
]

connect_fresh-IsSound :
    (url : Text) (binary : Bool) (w : Worker)
    → IsSound w
    → IsSound (connect (record w { url = url; binary = binary; reconnect_delay = 1000 }))
connect_fresh-IsSound url binary w h =
    connect-IsSound (record w { url = url; binary = binary; reconnect_delay = 1000 }) h.fits
      h.announced w.reconnect_timer h.waiting.waits h.waiting.timer (omega arith, omega arith)

on_connect-IsSound :
    (url : Text) (binary : Bool) (w : Worker) → IsSound w → IsSound (on_connect url binary w)
unfolding on_connect
on_connect-IsSound url binary w h =
    elim (Bool-cases (not (w.url == url) || not (same_format w.binary binary))) [
      | inl e ↦ rw e (
          connect_fresh-IsSound url binary (disconnect w)
            (disconnect-IsSound w h.announced (h.waiting.delay_low, h.waiting.delay_high)))
      | inr e ↦ rw e (connect_fresh-IsSound url binary w h)
    ]

handle-IsSound : (e : WorkerEvent) (w : Worker) → IsSound w → IsSound (handle e w)
unfolding handle
handle-IsSound (page_connects url binary) w h = on_connect-IsSound url binary w h
handle-IsSound page_disconnects w h =
    disconnect-IsSound w h.announced (h.waiting.delay_low, h.waiting.delay_high)
handle-IsSound (page_sends cmd) w h = send-IsSound cmd w h
handle-IsSound (socket_opens view n) w h = on_open-IsSound view n w h
handle-IsSound (socket_fails n) w h = on_error-IsSound n w h
handle-IsSound (socket_closes n) w h = on_close-IsSound n w h
handle-IsSound timer_fires w h = fire-IsSound w.reconnect_timer w h

handle_all_from-IsSound :
    (es : List WorkerEvent) (w : Worker) → IsSound w → IsSound (handle_all es w)
unfolding handle_all
handle_all_from-IsSound [] w h = h
handle_all_from-IsSound (e ∷ es) w h =
    handle_all_from-IsSound es (handle e w) (handle-IsSound e w h)

-- From the start and after any events of the page, the sockets and the timer: the status fits the
-- socket, the page was told each change of the status and nothing else, a lost connection is tried again
-- and one that the reader closed is not, and the delay lies between 1 and 15 seconds.
pub handle_all-IsSound : (es : List WorkerEvent) → IsSound (handle_all es initial_worker)
unfolding initial_worker
handle_all-IsSound es = handle_all_from-IsSound es _ (record {
  fits = refl;
  announced = refl;
  waiting = record { waits = refl; timer = tt; delay_low = omega arith; delay_high = omega arith };
})

-- What a socket does that is not the present one changes nothing.
handle-stale :
    (n : ℕ) (view : Text) (w : Worker)
    → is_current n w.ws ≡ false
    → (handle (socket_opens view n) w ≡ w)
      × (handle (socket_fails n) w ≡ w)
      × (handle (socket_closes n) w ≡ w)
unfolding handle on_open on_error on_close
handle-stale n view w h = (rw h refl, rw h refl, rw h refl)
