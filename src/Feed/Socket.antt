-- ===== src/Feed/Socket.antt =====
-- client/src/worker/feed.worker.ts: the websocket of the feed worker. The variables of the module are the
-- fields of the state, `posted` and `sent` what has gone to the page and to the server. A socket is known
-- by the number of its creation; what the browser does to it is an event. Frames, the question whether
-- the reader must sign in and the timer that delays a typed filter are left out.
pub mod Fitting
pub mod Lifecycle
use nats_explorer.Prelude.{
  ℕ, ◌+◌, ◌*◌, min, Text, text_beq, List, [], ◌∷◌, ◌++◌, Bool, true, false, not, ◌||◌, ◌&&◌, Option,
  none, some, if◌then◌else◌, nat_beq, ◌==◌, text_eq,
}

-- `opened` is the status `open`.
pub data WsStatus : Type 0 where
  connecting opened closed : WsStatus

-- `WebSocket.readyState`; a closed socket stays in the variable until its `onclose` has run.
pub data ReadyState : Type 0 where
  is_connecting is_open is_closing : ReadyState

pub record Socket : Type 0 where
  pub number : ℕ
  pub ready_state : ReadyState

pub record Worker : Type 0 where
  pub ws : Option Socket
  pub sockets : ℕ
  pub url : Text
  pub binary : Bool
  pub status : WsStatus
  pub manually_closed : Bool
  pub reconnect_timer : Option ℕ
  pub reconnect_delay : ℕ
  pub posted : List WsStatus
  pub sent : List Text

abbrev pub max_reconnect_delay : ℕ
max_reconnect_delay = 15000

unfoldable pub initial_worker : Worker
initial_worker = record {
  ws = none;
  sockets = 0;
  url = [];
  binary = true;
  status = closed;
  manually_closed = false;
  reconnect_timer = none;
  reconnect_delay = 1000;
  posted = [];
  sent = [];
}

abbrev pub same_status : WsStatus → WsStatus → Bool
same_status connecting connecting = true
same_status opened opened = true
same_status closed closed = true
same_status _ _ = false

unfoldable pub set_status : WsStatus → Worker → Worker
set_status next w =
    if same_status w.status next
    then w
    else record w { status = next; posted = w.posted ++ next ∷ [] }

-- `OPEN` or `CONNECTING`.
abbrev pub is_live_state : ReadyState → Bool
is_live_state is_connecting = true
is_live_state is_open = true
is_live_state is_closing = false

abbrev pub is_live : Option Socket → Bool
is_live none = false
is_live (some sock) = is_live_state sock.ready_state

abbrev pub is_open_state : ReadyState → Bool
is_open_state is_connecting = false
is_open_state is_open = true
is_open_state is_closing = false

abbrev pub is_ready : Option Socket → Bool
is_ready none = false
is_ready (some sock) = is_open_state sock.ready_state

-- A command as the text that goes out. What `send` returns is whether the socket is open.
unfoldable pub send : Text → Worker → Worker
send cmd w = if is_ready w.ws then record w { sent = w.sent ++ cmd ∷ [] } else w

unfoldable pub connect : Worker → Worker
unfolding set_status
connect w =
    let again = record w { manually_closed = false } in
    if is_live w.ws
    then again
    else set_status connecting (record again {
      ws = some (record { number = w.sockets; ready_state = is_connecting });
      sockets = w.sockets + 1;
    })

unfoldable pub disconnect : Worker → Worker
unfolding set_status
disconnect w =
    set_status closed (record w { manually_closed = true; reconnect_timer = none; ws = none })

abbrev pub or_timer : Option ℕ → ℕ → Option ℕ
or_timer none delay = some delay
or_timer (some t) delay = some t

unfoldable pub schedule_reconnect : Worker → Worker
schedule_reconnect w = record w { reconnect_timer = or_timer w.reconnect_timer w.reconnect_delay }

-- The function that the timer runs.
unfoldable pub reconnect : Worker → Worker
unfolding connect
reconnect w = connect (record w {
  reconnect_timer = none;
  reconnect_delay = min (w.reconnect_delay * 2) max_reconnect_delay;
})

-- `ws !== sock` for the socket of a handler.
abbrev pub is_current : ℕ → Option Socket → Bool
is_current n none = false
is_current n (some sock) = nat_beq sock.number n

-- `onopen` after the browser has opened the socket; `view` is the command of `sendView`.
unfoldable pub on_open : Text → ℕ → Worker → Worker
unfolding send set_status
on_open view n w =
    if is_current n w.ws
    then set_status opened (
        send view (record w {
          ws = some (record { number = n; ready_state = is_open });
          reconnect_delay = 1000;
        }))
    else w

unfoldable pub on_close : ℕ → Worker → Worker
on_close n w =
    if is_current n w.ws
    then (let shut = set_status closed (record w { ws = none }) in
        if not shut.manually_closed then schedule_reconnect shut else shut)
    else w

-- `sock.close()`: `onclose` follows as an event of its own.
unfoldable pub on_error : ℕ → Worker → Worker
on_error n w =
    if is_current n w.ws
    then record w { ws = some (record { number = n; ready_state = is_closing }) }
    else w

abbrev pub same_format : Bool → Bool → Bool
same_format true b = b
same_format false b = not b

-- The command `connect` of the page.
unfoldable pub on_connect : Text → Bool → Worker → Worker
on_connect url binary w =
    let fresh =
      if not (w.url == url) || not (same_format w.binary binary) then disconnect w else w in
    connect (record fresh { url = url; binary = binary; reconnect_delay = 1000 })

-- What happens to the worker, in the order in which it happens.
pub data WorkerEvent : Type 0 where
  page_connects : (url : Text) → (binary : Bool) → WorkerEvent
  page_disconnects : WorkerEvent
  page_sends : (cmd : Text) → WorkerEvent
  socket_opens : (view : Text) → (number : ℕ) → WorkerEvent
  socket_fails socket_closes : (number : ℕ) → WorkerEvent
  timer_fires : WorkerEvent

-- A timer that is not set does not fire.
unfoldable pub fire : Option ℕ → Worker → Worker
unfolding reconnect
fire none w = w
fire (some delay) w = reconnect w

unfoldable pub handle : WorkerEvent → Worker → Worker
handle (page_connects url binary) w = on_connect url binary w
handle page_disconnects w = disconnect w
handle (page_sends cmd) w = send cmd w
handle (socket_opens view n) w = on_open view n w
handle (socket_fails n) w = on_error n w
handle (socket_closes n) w = on_close n w
handle timer_fires w = fire w.reconnect_timer w

unfoldable pub handle_all : List WorkerEvent → Worker → Worker
handle_all [] w = w
handle_all (e ∷ es) w = handle_all es (handle e w)
