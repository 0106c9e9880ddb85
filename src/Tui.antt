-- ===== src/Tui.antt =====
-- cmd/googlysync/tui.go: the status view of the terminal. Bubble Tea's runtime, the format of times
-- and the text of errors are parameters; a command is what it asks the runtime to do.
pub mod Answer
pub mod Lines
pub mod Polls
mod Examples
use googlysync.Prelude.{
  ℕ, suc, Bool, true, false, not, ◌||◌, Option, none, some, List, [], ◌∷◌, ◌++◌, leb, if◌then◌else◌,
  Str, lit, str_eq, Time, zero_time, is_zero,
}

pub record EventMsg : Type 0 where
  pub op : Str
  pub path : Str
  pub at_time : Time

pub record StatusMsg : Type 0 where
  pub state : Str
  pub message : Str
  pub at_time : Time
  pub events : List EventMsg

-- A message of the runtime; the text of an error stands for it.
pub data Msg : Type 0 where
  status_msg : StatusMsg → Msg
  err_msg : Str → Msg
  poll_now : Msg
  key : Str → Msg

pub record Model : Type 0 where
  pub socket_path : Str
  pub interval : ℕ
  pub status : StatusMsg
  pub failed : Option Str
  pub quitting : Bool
  pub show_events : Bool

-- What an update asks for: to poll the daemon, to wait for the interval and then send `poll_now`,
-- to quit, or nothing.
pub data Cmd : Type 0 where
  poll : Str → ℕ → Cmd
  wait : ℕ → Cmd
  quit : Cmd
  nothing : Cmd

unfoldable pub new_model : Str → ℕ → Model
new_model socket_path interval = record {
  socket_path = socket_path;
  interval = interval;
  status = record { state = []; message = []; at_time = zero_time; events = [] };
  failed = none;
  quitting = false;
  show_events = true;
}

unfoldable pub init : Model → Cmd
init m = poll m.socket_path m.interval

-- the inner switch, on the name of the key
press : Str → Model → Model × Cmd
press k m =
    if str_eq k (lit "ctrl+c") || str_eq k (lit "q")
    then (record m { quitting = true }, quit)
    else if str_eq k (lit "r")
    then (m, poll m.socket_path 0)
    else if str_eq k (lit "e")
    then (record m { show_events = not m.show_events }, nothing)
    else (m, nothing)

unfoldable pub update : Msg → Model → Model × Cmd
unfolding press
update (status_msg s) m = (record m { status = s; failed = none }, poll m.socket_path m.interval)
update (err_msg e) m = (record m { failed = some e }, wait m.interval)
update poll_now m = (m, poll m.socket_path m.interval)
update (key k) m = press k m

abbrev pub max_event_lines : ℕ
max_event_lines = 10

-- `Format("15:04:05")` and `Format(time.RFC3339)`
pub record Formats : Type 0 where
  pub clock_time : Time → Str
  pub rfc3339 : Time → Str

-- a line feed
abbrev pub newline : Str
newline = 10 ∷ []

module _ (fmt : Formats) where
  unfoldable pub format_event_line : EventMsg → Str
  format_event_line evt =
      let shown = if is_zero evt.at_time then lit "-" else fmt.clock_time evt.at_time in
      lit "- "
      ++ (evt.op ++ (lit " " ++ (evt.path ++ (lit " (" ++ (shown ++ (lit ")" ++ newline))))))

  -- The loop over the events from an index on, with its `break`.
  unfoldable pub event_lines : ℕ → List EventMsg → Str
  event_lines i [] = []
  event_lines i (evt ∷ events) =
      let rest = event_lines (suc i) events in
      if leb max_event_lines i then [] else format_event_line evt ++ rest

  pub listed : List EventMsg → Str
  unfolding event_lines
  listed [] = lit "- (none)" ++ newline
  listed (e ∷ es) = event_lines 0 (e ∷ es)

  abbrev title : Str
  title = lit "googlysync status" ++ (newline ++ newline)

  abbrev keys : Str
  keys = newline ++ (lit "q to quit, r to refresh, e to toggle events" ++ newline)

  shown_status : Model → Str
  shown_status m =
      title
      ++ (m.status.state ++ (lit ": " ++ (m.status.message ++ newline)))
      ++ (lit "updated: " ++ (fmt.rfc3339 m.status.at_time ++ newline))
      ++ (if m.show_events
          then newline ++ (lit "recent events:" ++ (newline ++ (listed m.status.events ++ keys)))
          else keys)

  waiting : Model → Str
  unfolding shown_status
  waiting m =
      if is_zero m.status.at_time
      then title ++ (lit "loading..." ++ (newline ++ (newline ++ (lit "q to quit" ++ newline))))
      else shown_status m

  view_error : Option Str → Model → Str
  unfolding waiting
  view_error none m = waiting m
  view_error (some e) m =
      title
      ++ (lit "error: "
          ++ (e ++ (newline ++ (newline ++ (lit "q to quit, r to retry" ++ newline)))))

  unfoldable pub view : Model → Str
  unfolding view_error
  view m = if m.quitting then newline else view_error m.failed m
