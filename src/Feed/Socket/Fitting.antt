-- ===== src/Feed/Socket/Fitting.antt =====
-- The invariant of the feed worker: how the status, the socket and the retry timer fit one another.
use mathlib.Core.Path.{subst}
use nats_explorer.Prelude.{
  ℕ, zero, suc, ◌*◌, ◌≤◌, ◌≢◌, min, Text, List, [], ◌∷◌, ◌++◌, Bool, true, false, Option, none,
  some, ◌≡◌, refl, sym, ap, ◌∙◌, arith, inl, inr, Bool-cases, text_eq,
}
use nats_explorer.Feed.Socket.{
  WsStatus, connecting, opened, closed, ReadyState, is_connecting, is_open, is_closing, Socket,
  Worker, same_status, set_status, is_live, is_ready, send, connect, disconnect, reconnect,
  max_reconnect_delay, fire,
}

-- The status and the socket agree. A socket that is closing keeps the status it had.
abbrev pub StateFits : ReadyState → WsStatus → Type 0
StateFits is_connecting status = status ≡ connecting
StateFits is_open status = status ≡ opened
StateFits is_closing status = status ≢ closed

abbrev pub StatusFits : Option Socket → WsStatus → Type 0
StatusFits none status = status ≡ closed
StatusFits (some sock) status = StateFits sock.ready_state status

-- Without a socket, the reader closed it and nothing is tried, or there was none yet, or a retry is set.
abbrev pub Waits : Option Socket → (manually_closed : Bool) → (sockets : ℕ) → Option ℕ → Type 0
Waits (some sock) manual sockets timer = (manual ≡ false) × (1 ≤ sockets)
Waits none true sockets timer = timer ≡ none
Waits none false zero timer = timer ≡ none
Waits none false (suc n) timer = timer ≢ none

abbrev pub TimerFits : Option ℕ → Type 0
TimerFits none = Unit
TimerFits (some delay) = (1000 ≤ delay) × (delay ≤ 15000)

-- The statuses that were posted, from the first status to the present one: each differs from the last.
abbrev pub Announces : WsStatus → List WsStatus → WsStatus → Type 0
Announces s [] t = s ≡ t
Announces s (x ∷ xs) t = (s ≢ x) × Announces x xs t

pub record IsWaiting (w : Worker) : Type 0 where
  pub waits : Waits w.ws w.manually_closed w.sockets w.reconnect_timer
  pub timer : TimerFits w.reconnect_timer
  pub delay_low : 1000 ≤ w.reconnect_delay
  pub delay_high : w.reconnect_delay ≤ 15000

pub record IsSound (w : Worker) : Type 0 where
  pub fits : StatusFits w.ws w.status
  pub announced : Announces closed w.posted w.status
  pub waiting : IsWaiting w

same_status_sound : (s t : WsStatus) → same_status s t ≡ true → s ≡ t
same_status_sound connecting connecting h = refl
same_status_sound opened opened h = refl
same_status_sound closed closed h = refl
same_status_sound connecting opened h = absurd (cc (h))
same_status_sound connecting closed h = absurd (cc (h))
same_status_sound opened connecting h = absurd (cc (h))
same_status_sound opened closed h = absurd (cc (h))
same_status_sound closed connecting h = absurd (cc (h))
same_status_sound closed opened h = absurd (cc (h))

same_status_refl : (s : WsStatus) → same_status s s ≡ true
same_status_refl connecting = refl
same_status_refl opened = refl
same_status_refl closed = refl

same_status_ne : (s t : WsStatus) → same_status s t ≡ false → s ≢ t
same_status_ne s t h e = absurd (cc (same_status_refl s, ap (same_status s) e, h))

Announces-append :
    (s t u : WsStatus) (xs : List WsStatus)
    → Announces s xs t
    → t ≢ u
    → Announces s (xs ++ u ∷ []) u
Announces-append s t u [] h n = (λ e. n (sym h ∙ e), refl)
Announces-append s t u (x ∷ xs) h n = (h.0, Announces-append x t u xs h.1 n)

pub set_status-IsSound :
    (next : WsStatus) (w : Worker)
    → Announces closed w.posted w.status
    → StatusFits w.ws next
    → IsWaiting w
    → IsSound (set_status next w)
unfolding set_status
set_status-IsSound next w a f h = elim (Bool-cases (same_status w.status next)) [
  | inl e ↦ rw e (record {
    fits = subst (StatusFits w.ws) (sym (same_status_sound w.status next e)) f;
    announced = a;
    waiting = h;
  })
  | inr e ↦ rw e (record {
    fits = f;
    announced = Announces-append closed w.status next w.posted a (same_status_ne w.status next e);
    waiting = record {
      waits = h.waits;
      timer = h.timer;
      delay_low = h.delay_low;
      delay_high = h.delay_high;
    };
  })
]

live-Waits :
    (ws : Option Socket) (manual : Bool) (sockets : ℕ) (old timer : Option ℕ)
    → is_live ws ≡ true
    → Waits ws manual sockets old
    → Waits ws false sockets timer
live-Waits none manual sockets old timer e h = absurd (cc (e))
live-Waits (some sock) manual sockets old timer e h = (refl, h.1)

-- `connect` after the timer, whatever it was, has been cleared.
pub connect-IsSound :
    (w : Worker)
    → StatusFits w.ws w.status
    → Announces closed w.posted w.status
    → (timer : Option ℕ) → Waits w.ws w.manually_closed w.sockets timer
    → TimerFits w.reconnect_timer
    → (1000 ≤ w.reconnect_delay) × (w.reconnect_delay ≤ 15000)
    → IsSound (connect w)
unfolding connect
connect-IsSound w f a old v t d = elim (Bool-cases (is_live w.ws)) [
  | inl e ↦ rw e (record {
    fits = f;
    announced = a;
    waiting = record {
      waits = live-Waits w.ws w.manually_closed w.sockets old w.reconnect_timer e v;
      timer = t;
      delay_low = d.0;
      delay_high = d.1;
    };
  })
  | inr e ↦ rw e (
      set_status-IsSound connecting _ a refl
        (record { waits = (refl, omega arith); timer = t; delay_low = d.0; delay_high = d.1 }))
]

pub disconnect-IsSound :
    (w : Worker)
    → Announces closed w.posted w.status
    → (1000 ≤ w.reconnect_delay) × (w.reconnect_delay ≤ 15000)
    → IsSound (disconnect w)
unfolding disconnect
disconnect-IsSound w a d =
    set_status-IsSound closed _ a refl
      (record { waits = refl; timer = tt; delay_low = d.0; delay_high = d.1 })

pub fire-IsSound : (timer : Option ℕ) (w : Worker) → IsSound w → IsSound (fire timer w)
unfolding fire reconnect
fire-IsSound none w h = h
fire-IsSound (some delay) w h =
    connect-IsSound
      (record w {
        reconnect_timer = none;
        reconnect_delay = min (w.reconnect_delay * 2) max_reconnect_delay;
      })
      h.fits h.announced w.reconnect_timer h.waiting.waits tt
      (omega (arith, h.waiting.delay_low), omega (arith, h.waiting.delay_high))

pub send-IsSound : (cmd : Text) (w : Worker) → IsSound w → IsSound (send cmd w)
unfolding send
send-IsSound cmd w h = elim (Bool-cases (is_ready w.ws)) [
  | inl e ↦ rw e (record {
    fits = h.fits;
    announced = h.announced;
    waiting = record {
      waits = h.waiting.waits;
      timer = h.waiting.timer;
      delay_low = h.waiting.delay_low;
      delay_high = h.waiting.delay_high;
    };
  })
  | inr e ↦ rw e h
]
