-- ===== src/Ipc/Watch.antt =====
-- The stream of internal/ipc/server.go: `WatchStatus` and `statusError`.
use googlysync.Prelude.{Option, none, some, List, [], ◌∷◌, Str}
use googlysync.Status
use googlysync.Ipc.{Protobuf, StatusReply, get_status}

-- An error that ends a stream: the context's, or another.
pub data StreamError : Type 0 where
  canceled : StreamError
  deadline_exceeded : StreamError
  other : Str → StreamError

-- What the server returns: an error of grpc for the context's error, or the error as it is.
pub data Returned : Type 0 where
  from_context : StreamError → Returned
  plain : StreamError → Returned

unfoldable pub status_error : StreamError → Returned
status_error canceled = from_context canceled
status_error deadline_exceeded = from_context deadline_exceeded
status_error (other e) = plain (other e)

-- What ends the wait of a turn: the ticker, or the context with its error.
pub data Wake : Type 0 where
  ticked : Wake
  done : StreamError → Wake

-- A turn of the loop: the store at that time, the error of `Send`, and what ends the wait.
pub record Turn : Type 0 where
  pub store : Status.Store
  pub send_error : Option StreamError
  pub wake : Wake

module _ (pb : Protobuf) where
  sends : Turn → List (StatusReply pb) × Option Returned → List (StatusReply pb) × Option Returned
  sends t (replies, end) = (get_status pb t.store ∷ replies, end)

  -- after a `Send` that went well
  awake : Wake → List (StatusReply pb) × Option Returned → List (StatusReply pb) × Option Returned
  awake ticked rest = rest
  awake (done e) rest = ([], some (status_error e))

  after_send :
      Option StreamError
      → Turn
      → List (StatusReply pb) × Option Returned
      → List (StatusReply pb) × Option Returned
  unfolding sends awake
  after_send (some e) t rest = ([], some (plain e))
  after_send none t rest = sends t (awake t.wake rest)

  -- The replies that are sent, and what the handler returns, if the turns reach its end.
  unfoldable pub watch_status : List Turn → List (StatusReply pb) × Option Returned
  unfolding after_send
  watch_status [] = ([], none)
  watch_status (t ∷ ts) = let rest = watch_status ts in after_send t.send_error t rest
