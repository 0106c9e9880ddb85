-- ===== src/Tui/Polls.antt =====
-- The polls that cmd/googlysync/tui.go keeps going, under a runtime that carries out its commands in
-- any order.
use googlysync.Prelude.{ℕ, suc, ◌+◌, ◌≡◌, refl, false, arith, Str, lit, str_eq, ◌⊎◌, inl, inr}
use googlysync.Tui.{
  StatusMsg, Msg, status_msg, err_msg, poll_now, key, Model, Cmd, poll, wait, quit, nothing,
  new_model, init, update,
}

-- The program as it runs: its model, the polls and the waits that are under way, and how often
-- the user has asked for a refresh.
pub record Run : Type 0 where
  pub model : Model
  pub polls : ℕ
  pub waits : ℕ
  pub refreshes : ℕ

pub ask : Cmd → Run → Run
ask (poll socket interval) r = record r { polls = suc r.polls }
ask (wait interval) r = record r { waits = suc r.waits }
ask quit r = r
ask nothing r = r

pub deliver : Msg → Run → Run
unfolding ask
deliver msg r = let (m, cmd) = update msg r.model in ask cmd (record r { model = m })

unfoldable pub launch : Str → ℕ → Run
unfolding ask
launch socket_path interval =
    let m = new_model socket_path interval in
    ask (init m) (record { model = m; polls = 0; waits = 0; refreshes = 0 })

abbrev pub refresh_key : Str
refresh_key = lit "r"

-- A step: a poll is answered or fails, a wait is over, or a key is pressed.
pub data Step (r : Run) : Run → Type 0 where
  answered :
      (n : ℕ) (s : StatusMsg)
      → r.polls ≡ suc n
      → Step r (deliver (status_msg s) (record r { polls = n }))
  failed :
      (n : ℕ) (e : Str) → r.polls ≡ suc n → Step r (deliver (err_msg e) (record r { polls = n }))
  over : (n : ℕ) → r.waits ≡ suc n → Step r (deliver poll_now (record r { waits = n }))
  refreshed : Step r (deliver (key refresh_key) (record r { refreshes = suc r.refreshes }))
  pressed : (k : Str) → str_eq k refresh_key ≡ false → Step r (deliver (key k) r)

pub data Reach (start : Run) : Run → Type 0 where
  here : Reach start start
  next : {r s : Run} → Reach start r → Step r s → Reach start s

abbrev pub IsBusy : Run → Type 0
IsBusy r = r.polls + r.waits ≡ suc r.refreshes

update_other_key :
    (k : Str) (m : Model)
    → str_eq k refresh_key ≡ false
    → ((update (key k) m).1 ≡ quit) ⊎ ((update (key k) m).1 ≡ nothing)
unfolding update
update_other_key k m e = ground arith

press-IsBusy :
    (k : Str) (r : Run)
    → ((update (key k) r.model).1 ≡ quit) ⊎ ((update (key k) r.model).1 ≡ nothing)
    → IsBusy r
    → IsBusy (deliver (key k) r)
unfolding deliver
press-IsBusy k r (inl e) h = rw e h
press-IsBusy k r (inr e) h = rw e h

refresh-IsBusy :
    (r : Run)
    → IsBusy r
    → IsBusy (deliver (key refresh_key) (record r { refreshes = suc r.refreshes }))
unfolding deliver update str_eq
refresh-IsBusy r h = omega arith

Step-IsBusy : {r s : Run} → Step r s → IsBusy r → IsBusy s
unfolding deliver update
Step-IsBusy (answered n s e) h = omega arith
Step-IsBusy (failed n m e) h = omega arith
Step-IsBusy (over n e) h = omega arith
Step-IsBusy {r} refreshed h = refresh-IsBusy r h
Step-IsBusy {r} (pressed k e) h = press-IsBusy k r (update_other_key k r.model e) h

-- However the program runs, the polls and waits under way are one more than the refreshes that were
-- asked for: an answer, an error and the end of a wait each lead to one more poll or wait, and each
-- refresh adds a chain of polls of its own that no later step ends.
pub Reach-IsBusy :
    (socket_path : Str) (interval : ℕ) {r : Run}
    → Reach (launch socket_path interval) r
    → r.polls + r.waits ≡ suc r.refreshes
unfolding launch init
Reach-IsBusy socket_path interval here = refl
Reach-IsBusy socket_path interval (next p s) = Step-IsBusy s (Reach-IsBusy socket_path interval p)
