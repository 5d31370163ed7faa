-- ===== src/Runtime/Teardown.antt =====
-- What `close`, `_forced_teardown`, `_die_on_re_thread` and the exception handler of `start` in
-- src/baresip/runtime.py undo: the sink, the capture of the native log, the stack's private directory
-- and the native library. Whether a thread stops in time is an input.
pub mod Private
use baresip_python.Base.{
  ℕ, Bool, true, false, not, ◌&&◌, ◌||◌, Option, none, some, if◌then◌else◌, is_some, Text,
}

-- `thread_alive` says that there is a SIP thread and that it is alive; `log_captured`, that the shim
-- captures what the stack logs, up to `bp_log_stop`; `log_thread`, that the runtime has a reader of
-- it, which hands over what is left after that and is not modelled here; `initialised`, that
-- `bp_init` was called and `bp_close` was not.
pub record Host : Type 0 where
  pub sink_attached : Bool
  pub log_captured : Bool
  pub log_thread : Bool
  pub conf_dir : Option Text
  pub stack_down : Bool
  pub thread_alive : Bool
  pub initialised : Bool

unfoldable pub detach_sink : Host → Host
detach_sink h = record h { sink_attached = false }

-- `_stop_native_log`: the reader is forgotten whether it stopped or not.
unfoldable pub stop_native_log : Host → Host
stop_native_log h = record h { log_captured = false; log_thread = false }

-- `_remove_conf_dir`: not under a stack that still stands.
unfoldable pub remove_conf_dir : Host → Host
remove_conf_dir h = if not h.stack_down && h.thread_alive then h else record h { conf_dir = none }

-- The command that stops the loop, and the join; `stops` says that the thread ended in time.
unfoldable pub join_thread : Bool → Host → Host
join_thread stops h =
    if h.thread_alive && stops then record h { thread_alive = false; stack_down = true } else h

-- `_forced_teardown`
unfoldable pub forced_teardown : Bool → Host → Host
unfolding detach_sink stop_native_log remove_conf_dir join_thread
forced_teardown stops h = remove_conf_dir (stop_native_log (join_thread stops (detach_sink h)))

abbrev pub close_library : Host → Host
close_library h = record h { initialised = false }

-- `close` from its `_send_stop` on: a thread that is alive after the join is wedged, and the library
-- stays as it is.
unfoldable pub close_down : Bool → Host → Host
unfolding detach_sink stop_native_log remove_conf_dir join_thread
close_down stops h =
    let j = join_thread stops h in
    if j.thread_alive
    then remove_conf_dir (stop_native_log (detach_sink j))
    else remove_conf_dir (close_library (stop_native_log (detach_sink j)))

-- The exception handler of `start`.
unfoldable pub undo_start : Bool → Host → Host
unfolding detach_sink stop_native_log remove_conf_dir join_thread
undo_start stops h = remove_conf_dir (stop_native_log (detach_sink (join_thread stops h)))

-- The end of an unexpected death on the SIP thread itself, behind `bp_loop_done`; the reader of the
-- log stops by itself.
unfoldable pub die_down : Host → Host
unfolding detach_sink remove_conf_dir
die_down h =
    remove_conf_dir (record (detach_sink (record h { stack_down = true })) { log_captured = false })
