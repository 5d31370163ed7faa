-- ===== src/Runtime/Stopping.antt =====
-- `_send_stop` of src/baresip/runtime.py: the command that ends the SIP thread is sent until the queue
-- takes it, a hundred times at most. What `bp_cmd` answers to the n-th attempt is an argument.
pub mod First
use baresip_python.Base.{ℕ, zero, suc, ◌+◌, Bool, true, false, ◌||◌, ◌==◌, if◌then◌else◌}
use baresip_python.Runtime.Commands.{eagain}

-- `errno.ESHUTDOWN`
abbrev pub eshutdown : ℕ
eshutdown = 108

abbrev pub stop_retries : ℕ
stop_retries = 100

-- The call returned silently, or it logged an error number or that the queue stayed full.
pub data Stop : Type 0 where
  quiet : Stop
  could_not_queue : ℕ → Stop
  stayed_full : Stop

-- What an attempt that is the last one ends with.
unfoldable pub stop_verdict : ℕ → Stop
stop_verdict error =
    if (error == 0) || (error == eshutdown) then Stop.quiet else Stop.could_not_queue error

-- `tries` attempts are left, and `done` were made. The number is that of the attempts made at the
-- end.
unfoldable pub stop_loop : ℕ → ℕ → (ℕ → ℕ) → Stop × ℕ
unfolding stop_verdict
stop_loop zero done answers = (Stop.stayed_full, done)
stop_loop (suc tries) done answers =
    let rest = stop_loop tries (suc done) answers in
    if answers done == eagain then rest else (stop_verdict (answers done), suc done)

-- `_send_stop`
unfoldable pub send_stop : (ℕ → ℕ) → Stop × ℕ
unfolding stop_loop
send_stop answers = stop_loop stop_retries 0 answers
