-- ===== src/Lib.antt =====
-- baresip-python: a Python binding of the baresip SIP stack. The stack runs on a thread of its own
-- behind a small native shim; the Python side sends it commands, is told of completions and of
-- stack events through one callback, and keeps the objects that an application works with. This
-- library models that Python side, src/baresip of the repository, and some of the programs that use
-- it, in examples, with the build's policy, in scripts.
--
-- The parts and the files:
--   * Runtime (src/baresip/runtime.py). Runtime/Sequence is `_next_seq`. Runtime/Commands is `cmd`,
--     `_dispatch`, `_deliver_stack_event`, `_fail_pending`, `_finish_death`, `subscribe` and
--     `unsubscribe` over a record of the runtime's fields. `cmd` is cut at its await into `send`,
--     the steps that can resume it, a cancellation among them, and `give_up`; Runtime/Commands/Steps
--     lets all of them, and the SIP thread's, happen in any order; Runtime/Commands/Contract says
--     what they implement. Runtime/Drain is `drain`. Runtime/Lifecycle is `start`,
--     `close` and the SIP thread's end for all runtimes of a process, as steps between awaits.
--   * Events (src/baresip/events.py) has the numbering of the events and `StackEvent`, and from
--     runtime.py the build of one from a payload.
--   * Errors (src/baresip/errors.py) and Stats (src/baresip/stats.py); Stats/Score is
--     `mos_estimate` over any floating-point numbers.
--   * Call (src/baresip/call.py): the record of a call with `_on_stack_event`. The methods are in
--     Call/Session (answer, reject, hangup, hold, resume, video direction), Call/Transfer (blind and
--     attended transfer, and the peer's requests), Call/Establish (`wait_established`), Call/Keys
--     (`send_dtmf`) and Call/Listeners; Call/Refer is `_parse_refer_to`, Call/Digits
--     is about the digits that a peer presses. Call/Run has all methods.
--   * UserAgent (src/baresip/ua.py): creation and registration, UserAgent/Dial, UserAgent/Policy
--     (the transfer policy, incoming calls and listeners).
--   * Audio (src/baresip/audio.py) and Video (src/baresip/video.py).
--   * Account, with its `__repr__` in Account/Shown, and Configuration (the classes Account and Config of src/baresip/config.py).
--   * Programs (examples): Programs/Agent has the frame of a program, 02_dial.py and `press` of
--     05_dtmf_ivr.py; Programs/Answering has `serve` of 05_dtmf_ivr.py and the loop of
--     06_softphone.py; Programs/Bridge is `pump` of 07_warm_transfer.py.
--   * BuildPolicy (scripts/build_native.py): the modules of a native build and the checks that keep
--     unrequested ffmpeg code out of it; BuildPolicy/Scan reads cmake's texts, BuildPolicy/Links is
--     about its pattern for link commands.
--   * Wire: the commands and the text of their arguments. World: the environment.
--   * Base: what the other modules share. Examples: concrete inputs.
--
-- How they interact: the runtime delivers each stack event to the listeners that are subscribed,
-- those of the calls and agents among them; their methods send commands through `cmd`. In World a
-- method of a call or an agent is a function of a world: the heap of Call objects, the commands sent,
-- and what the environment will do. Where the method awaits a command, the next turn gives the events
-- that are delivered meanwhile and what `cmd` returns or raises; where it awaits a future with a
-- timeout or sleeps, the next wait gives the events delivered until it resumes. Every object hears
-- every event. Other coroutines of the application do not run in between, and callbacks of the
-- application only observe: what they are given is recorded, and what they raise is logged.
--
-- Bounds and fuel: a sequence number is below 2 ^ 32, and its search has as much fuel as numbers are
-- in use, which reaches one that is free. Decimal text has as much fuel as the number, which is more
-- than its digits. The loop of `drain` is recursion on the environment's turns; with none left, the
-- command meets its timeout. The watchdog and a bridge have no end of their own: they run for as many
-- rounds as they are given. `_send_stop` makes a hundred attempts, as the code does.
--
-- What is read narrowly: texts are lists of code points, with the case, digits and white space of
-- ASCII, and in a status line also the characters that `isdigit` takes and `int` refuses. A task
-- that is cancelled between the end of its future and its own next turn keeps its outcome. A payload of the stack is absent, empty, no JSON, or an object of the shape that the
-- shim, src/_native/shim.c, writes. Times are microseconds of the monotonic clock. A quotient of
-- statistics is kept as its numerator. The frame rate of a configuration is of any type with a
-- test and a format. The wording of an exception's message is not modelled, nor is what the library logs, save the counts
-- of the watchdog and of dropped events.
--
-- What is not modelled: the native shim, which is a parameter of Audio and Video and an input
-- elsewhere; the lazily made audio and video objects of a call and the log record of its final
-- statistics; what runs a build, the other scripts and examples, benchmarks and tests.
mod Base
pub mod Errors
pub mod Events
pub mod Runtime
pub mod Logging
pub mod Stats
pub mod Call
pub mod Wire
pub mod World
pub mod UserAgent
pub mod Audio
pub mod Video
pub mod Account
pub mod Configuration
pub mod Programs
pub mod BuildPolicy
pub mod Examples
