-- ===== src/Runtime/Teardown/Private.antt =====
-- The order in which src/baresip/runtime.py takes down what it set up.
use baresip_python.Base.{
  ◌≡◌, refl, sym, ◌∙◌, subst, Bool, true, false, not, ◌&&◌, none, if◌then◌else◌, if_true, if_false,
  Bool-cases, inl, inr, ◌⊎◌, arith,
}
use baresip_python.Runtime.Teardown.{
  Host, detach_sink, stop_native_log, remove_conf_dir, join_thread, forced_teardown, close_down,
  close_library, undo_start, die_down,
}

-- The stack still stands: its thread is alive and has not left `bp_loop_done` behind.
abbrev pub stands : Host → Bool
stands h = not h.stack_down && h.thread_alive

-- The sink is detached, the capture of the native log is switched off, and the private directory is
-- there exactly as long as the stack stands; the native library was closed only under a stack that
-- is gone.
pub record IsTakenDown (before after : Host) : Type 0 where
  pub detached : after.sink_attached ≡ false
  pub quiet : after.log_captured ≡ false
  pub kept : stands after ≡ true → after.conf_dir ≡ before.conf_dir
  pub removed : stands after ≡ false → after.conf_dir ≡ none
  pub closed :
      after.initialised ≡ false → (before.initialised ≡ false) ⊎ (after.thread_alive ≡ false)

remove_conf_dir-IsTakenDown :
    (before h : Host)
    → h.sink_attached ≡ false
    → h.log_captured ≡ false
    → h.conf_dir ≡ before.conf_dir
    → (h.initialised ≡ false → (before.initialised ≡ false) ⊎ (h.thread_alive ≡ false))
    → IsTakenDown before (remove_conf_dir h)
unfolding remove_conf_dir
remove_conf_dir-IsTakenDown before h s l d c = elim (Bool-cases (stands h)) [
  | inl up ↦ subst (IsTakenDown before) (sym (if_true (stands h) _ _ up)) (record {
    detached = s;
    quiet = l;
    kept = λ e. d;
    removed = λ e. absurd (ground arith);
    closed = c;
  })
  | inr down ↦ subst (IsTakenDown before) (sym (if_false (stands h) _ _ down)) (record {
    detached = s;
    quiet = l;
    kept = λ e. absurd (ground arith);
    removed = λ e. refl;
    closed = c;
  })
]

-- A choice between two hosts that are taken down.
either-IsTakenDown :
    (before : Host) (b : Bool) (x y : Host)
    → (b ≡ true → IsTakenDown before x)
    → (b ≡ false → IsTakenDown before y)
    → IsTakenDown before (if b then x else y)
either-IsTakenDown before true x y p q = p refl
either-IsTakenDown before false x y p q = q refl

-- Joining the thread touches the thread alone.
join_thread-keeps :
    (stops : Bool) (h : Host)
    → ((join_thread stops h).conf_dir ≡ h.conf_dir)
      × ((join_thread stops h).initialised ≡ h.initialised)
unfolding join_thread
join_thread-keeps stops h = go (h.thread_alive && stops)
  where
    go :
        (b : Bool)
        → ((if b then record h { thread_alive = false; stack_down = true } else h).conf_dir
            ≡ h.conf_dir)
          × ((if b then record h { thread_alive = false; stack_down = true } else h).initialised
              ≡ h.initialised)
    go true = (refl, refl)
    go false = (refl, refl)

join_thread_sink : (stops : Bool) (h : Host) → (join_thread stops h).sink_attached ≡ h.sink_attached
unfolding join_thread
join_thread_sink stops h = go (h.thread_alive && stops)
  where
    go :
        (b : Bool)
        → (if b then record h { thread_alive = false; stack_down = true } else h).sink_attached
          ≡ h.sink_attached
    go true = refl
    go false = refl

-- At the interpreter's exit, whether the thread stops in time or not.
forced_teardown-IsTakenDown : (stops : Bool) (h : Host) → IsTakenDown h (forced_teardown stops h)
unfolding forced_teardown detach_sink stop_native_log
forced_teardown-IsTakenDown stops h =
    let (dir, initialised) = join_thread-keeps stops (record h { sink_attached = false }) in
    remove_conf_dir-IsTakenDown h (stop_native_log (join_thread stops (detach_sink h)))
      (join_thread_sink stops (record h { sink_attached = false })) refl dir
      (λ e. inl (sym initialised ∙ e))

close_down-IsTakenDown : (stops : Bool) (h : Host) → IsTakenDown h (close_down stops h)
unfolding close_down detach_sink stop_native_log
close_down-IsTakenDown stops h =
    let (dir, initialised) = join_thread-keeps stops h in
    either-IsTakenDown h (join_thread stops h).thread_alive _ _
      (λ alive.
        remove_conf_dir-IsTakenDown h (stop_native_log (detach_sink (join_thread stops h))) refl
          refl dir (λ e. inl (sym initialised ∙ e)))
      (λ ended.
        remove_conf_dir-IsTakenDown h
          (close_library (stop_native_log (detach_sink (join_thread stops h)))) refl refl dir
          (λ e. inr ended))

undo_start-IsTakenDown : (stops : Bool) (h : Host) → IsTakenDown h (undo_start stops h)
unfolding undo_start detach_sink stop_native_log
undo_start-IsTakenDown stops h =
    let (dir, initialised) = join_thread-keeps stops h in
    remove_conf_dir-IsTakenDown h (stop_native_log (detach_sink (join_thread stops h))) refl refl
      dir (λ e. inl (sym initialised ∙ e))

die_down-IsTakenDown : (h : Host) → IsTakenDown h (die_down h)
unfolding die_down detach_sink
die_down-IsTakenDown h =
    remove_conf_dir-IsTakenDown h
      (record h { sink_attached = false; log_captured = false; stack_down = true }) refl refl refl
      (λ e. inl e)

-- However a runtime comes to its end, by `close`, by the exception handler of `start`, by the hook
-- at the interpreter's exit or by a death on the SIP thread, and whether the thread stops in time or
-- not: the sink is detached and the capture of the native log is switched off, the private directory
-- is left exactly while the stack still stands, and `bp_close` does not run under a live thread.
pub Host-IsTakenDown :
    (stops : Bool) (h : Host)
    → IsTakenDown h (close_down stops h)
      × IsTakenDown h (undo_start stops h)
      × IsTakenDown h (forced_teardown stops h)
      × IsTakenDown h (die_down h)
Host-IsTakenDown stops h = (
  close_down-IsTakenDown stops h,
  undo_start-IsTakenDown stops h,
  forced_teardown-IsTakenDown stops h,
  die_down-IsTakenDown h,
)
