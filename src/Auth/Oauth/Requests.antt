-- ===== src/Auth/Oauth/Requests.antt =====
-- Several requests to the callback of internal/auth/oauth.go: its two channels, which hold one value
-- each, and the handlers that block in their send. `server.Shutdown` waits for every handler.
pub mod Waiting
pub mod Forever
mod Examples
use googlysync.Prelude.{
  ℕ, suc, Bool, true, false, ◌≡◌, ◌⊎◌, ◌≢◌, Option, none, some, List, [], ◌∷◌, ◌++◌, Str, Result,
  ok, err, if◌then◌else◌,
}
use googlysync.Auth.Oauth.{Query, callback}

-- a channel of capacity 1 with the senders that block on it, and how many have sent so far
pub record Channel : Type 0 where
  pub buffered : Option Str
  pub blocked : List Str
  pub sent : ℕ

-- what the select receives: from `codeCh`, from `errCh`, or the context's error
pub data Answer : Type 0 where
  from_code from_err from_context : Str → Answer

pub record Flow : Type 0 where
  pub code_ch : Channel
  pub err_ch : Channel
  -- what the select has received; `none` while it waits
  pub taken : Option Answer
  -- `Shutdown` has closed the listener.
  pub closed : Bool

abbrev pub empty_channel : Channel
empty_channel = record { buffered = none; blocked = []; sent = 0 }

abbrev pub start : Flow
start = record { code_ch = empty_channel; err_ch = empty_channel; taken = none; closed = false }

-- `ch <- x`, of a handler
abbrev pub send_to : Option Str → Channel → Str → Channel
send_to none ch x = record { buffered = some x; blocked = ch.blocked; sent = suc ch.sent }
send_to (some y) ch x = record {
  buffered = some y;
  blocked = ch.blocked ++ x ∷ [];
  sent = suc ch.sent;
}

-- a receive, after which a sender that blocks goes on
abbrev pub next_buffered : List Str → Channel → Channel
next_buffered [] ch = record ch { buffered = none }
next_buffered (x ∷ xs) ch = record ch { buffered = some x; blocked = xs }

abbrev pub send : Result Str → Flow → Flow
send (ok code) s = record s { code_ch = send_to s.code_ch.buffered s.code_ch code }
send (err e) s = record s { err_ch = send_to s.err_ch.buffered s.err_ch e }

pub data Happening : Type 0 where
  -- a request comes in, and its handler sends
  requested : Query → Happening
  -- the cases of the select
  code_received : Happening
  err_received : Happening
  cancelled : Str → Happening
  -- `server.Shutdown` begins.
  shuts : Happening

abbrev pub receive_code : Option Str → Flow → Flow
receive_code none s = s
receive_code (some c) s = record s {
  code_ch = next_buffered s.code_ch.blocked s.code_ch;
  taken = some (from_code c);
}

abbrev pub receive_err : Option Str → Flow → Flow
receive_err none s = s
receive_err (some e) s = record s {
  err_ch = next_buffered s.err_ch.blocked s.err_ch;
  taken = some (from_err e);
}

-- before the select has received, and after it
abbrev pub while_waiting : Option Answer → Flow → Flow → Flow
while_waiting none next s = next
while_waiting (some r) next s = s

abbrev pub once_taken : Option Answer → Flow → Flow → Flow
once_taken none next s = s
once_taken (some r) next s = next

-- The select receives once; after it the flow shuts the server down, which takes no more requests.
-- An error of `openBrowser` ends the wait as the context's does.
unfoldable pub step : Str → Happening → Flow → Flow
unfolding callback
step state (requested q) s = if s.closed then s else send (callback state q).1 s
step state code_received s = while_waiting s.taken (receive_code s.code_ch.buffered s) s
step state err_received s = while_waiting s.taken (receive_err s.err_ch.buffered s) s
step state (cancelled e) s = while_waiting s.taken (record s { taken = some (from_context e) }) s
step state shuts s = once_taken s.taken (record s { closed = true }) s

abbrev pub run : Str → List Happening → Flow → Flow
run state [] s = s
run state (h ∷ hs) s = run state hs (step state h s)
