-- ===== src/Direct/Session/Watch.antt =====
-- The watch on a connection (watchConnection of src/direct/session.ts). Each state that the peer
-- reports, each timer that fires, and each call of what it returns is an event.
pub mod Notes
mod Tests
use wildbloom.Prelude.{Bool, true, false, not, ◌&&◌, ◌||◌, if◌then◌else◌, List, [], ◌∷◌}
use wildbloom.Direct.Session.Failures.{DirectFailure, lost, connect}

-- `PeerState` (src/direct/peer.ts).
pub data PeerState : Type 0 where
  new connecting connected disconnected failed closed : PeerState

-- A timer's variable: undefined, running, or still set after the timer has fired or was cleared.
pub data Timer : Type 0 where
  unset running spent : Timer

abbrev pub is_running : Timer → Bool
is_running running = true
is_running _ = false

-- `clearTimeout`, with the variable left as it is.
abbrev pub clear : Timer → Timer
clear running = spent
clear t = t

-- `failedTimer ??= setTimeout(…)`.
abbrev pub set_once : Timer → Timer
set_once unset = running
set_once t = t

-- The variables of `watchConnection`, with the calls of `onReconnecting` and `onGiveUp`, the newest first.
pub record Watch : Type 0 where
  pub ever_connected : Bool
  pub down : Bool
  pub stopped : Bool
  pub connect_timer : Timer
  pub failed_timer : Timer
  pub notes : List Bool
  pub gave_up : List DirectFailure

abbrev pub fresh : Watch
fresh = record {
  ever_connected = false;
  down = false;
  stopped = false;
  connect_timer = running;
  failed_timer = unset;
  notes = [];
  gave_up = [];
}

-- `giveUp()`.
pub give_up : Watch → Watch
give_up w =
    if w.stopped
    then w
    else record w { gave_up = (if w.ever_connected then lost else connect) ∷ w.gave_up }

-- The `connected` branch.
pub on_connected : Watch → Watch
on_connected w = record w {
  ever_connected = true;
  connect_timer = unset;
  failed_timer = unset;
  notes = if w.down then false ∷ w.notes else w.notes;
  down = false;
}

-- The branch of `disconnected` and `failed`.
pub on_down : Bool → Watch → Watch
on_down is_failed w = record w {
  notes = if w.ever_connected && not w.down then true ∷ w.notes else w.notes;
  down = true;
  failed_timer = if is_failed then set_once w.failed_timer else w.failed_timer;
}

-- `evaluate()`, by the state that the peer is in.
pub evaluate : PeerState → Watch → Watch
evaluate state w = if w.stopped then w else elim state [
  | connected ↦ on_connected w
  | disconnected ↦ on_down false w
  | failed ↦ on_down true w
  | closed ↦ record w { connect_timer = clear w.connect_timer; failed_timer = clear w.failed_timer }
  | new ↦ w
  | connecting ↦ w
]

-- A timer fires only while it runs.
pub connect_fires : Watch → Watch
connect_fires w =
    if is_running w.connect_timer
    then (let w' = record w { connect_timer = spent } in give_up w')
    else w

pub failed_fires : Watch → Watch
failed_fires w =
    if is_running w.failed_timer
    then (let w' = record w { failed_timer = spent } in give_up w')
    else w

-- `stop()`.
pub stop : Watch → Watch
stop w = record w {
  stopped = true;
  connect_timer = clear w.connect_timer;
  failed_timer = clear w.failed_timer;
}

pub data Event : Type 0 where
  reports : PeerState → Event
  connect_timeout failed_timeout gives_up stops : Event

pub step : Event → Watch → Watch
step (reports state) w = evaluate state w
step connect_timeout w = connect_fires w
step failed_timeout w = failed_fires w
step gives_up w = give_up w
step stops w = stop w

pub run : List Event → Watch → Watch
unfolding step give_up on_connected on_down evaluate connect_fires failed_fires stop
run [] w = w
run (e ∷ es) w = run es (step e w)
