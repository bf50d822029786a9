-- ===== src/Run/Steps.antt =====
-- What the parts of a round add to what is shown: a ptrace request, and the data of a write.
use errmark.Prelude.{
  ◌≡◌, refl, Bool, Option, none, some, true, false, pos, minus_one, Bytes, if◌then◌else◌,
}
use errmark.Stdio.{Io, fwrite_trace}
use errmark.Stdio.Shown.{shown}
use errmark.World.{World, Request, on_io, on_cmd}
use errmark.World.Returns.{Returns}
use errmark.Marks.Transcript.{Fd}
use errmark.Guard.{ask, guard_ptrace, after_ptrace, trace, esrch}
use errmark.Run.Shows.{Setup, View, CurIs, Shows, Base-io}

Cur-io : (cur : Option Fd) (w : World) (f : Io → Io) → CurIs cur w → CurIs cur (on_io f w)
Cur-io none w f h = h
Cur-io (some fd) w f h = h

module _ {s : Setup} where
  pub Shows-io :
      {v : View} {w : World} (f : Io → Io) (t c : Bytes)
      → Shows s v w
      → shown (f w.io) ≡ t
      → (f w.io).copied ≡ c
      → Shows s (record v { text = t; copy = c }) (on_io f w)
  Shows-io {v} {w} f t c h p q = record {
    base = Base-io f t c h.base p q;
    cur_is = Cur-io v.cur w f h.cur_is;
  }

  trace_if :
      (b : Bool) (text : Bytes) {v : View} {w : World}
      → Shows s v w
      → Shows s v (if b then on_io (fwrite_trace text) w else w)
  trace_if true text {v} h =
      Shows-io (fwrite_trace text) v.text v.copy h (unfold shown fwrite_trace in h.base.text_is)
        (unfold fwrite_trace in h.base.copy_is)
  trace_if false text h = h

  pub trace-Shows : (text : Bytes) {v : View} {w : World} → Shows s v w → Shows s v (trace text w)
  unfolding trace
  trace-Shows text {w = w} h = trace_if w.cmd.trace_fbt text h

  asked : (request : Request) {v : View} {w : World} → Shows s v w → Shows s v (ask request w)
  asked request {v} {w} h = record {
    base = record {
      no_debug = h.base.no_debug;
      no_cmd_debug = h.base.no_cmd_debug;
      no_verbose = h.base.no_verbose;
      nullify_is = h.base.nullify_is;
      copying_is = h.base.copying_is;
      libc_is = h.base.libc_is;
      marks_are = h.base.marks_are;
      exited_is = h.base.exited_is;
      text_is = h.base.text_is;
      copy_is = h.base.copy_is;
    };
    cur_is = Cur-ask v.cur h.cur_is;
  }
    where
      Cur-ask : (cur : Option Fd) → CurIs cur w → CurIs cur (ask request w)
      Cur-ask none p = p
      Cur-ask (some fd) p = p

  set_exited :
      {v : View} {w : World}
      → Shows s v w
      → Shows s
          (record v { child_exited = true })
          (on_cmd (λ c. record c { child_exited = true }) w)
  set_exited {v} {w} h = record {
    base = record {
      no_debug = h.base.no_debug;
      no_cmd_debug = h.base.no_cmd_debug;
      no_verbose = h.base.no_verbose;
      nullify_is = h.base.nullify_is;
      copying_is = h.base.copying_is;
      libc_is = h.base.libc_is;
      marks_are = h.base.marks_are;
      exited_is = refl;
      text_is = h.base.text_is;
      copy_is = h.base.copy_is;
    };
    cur_is = Cur-set v.cur h.cur_is;
  }
    where
      Cur-set :
          (cur : Option Fd)
          → CurIs cur w
          → CurIs cur (on_cmd (λ c. record c { child_exited = true }) w)
      Cur-set none p = p
      Cur-set (some fd) p = p

  -- A request that succeeds: it returns 0, and the flag is set.
  pub ptrace_succeeds :
      (request : Request) {v : View} {w : World}
      → Shows s v w
      → Returns
          (guard_ptrace request none w)
          (λ rc w'. (rc ≡ pos 0) × Shows s (record v { child_exited = true }) w')
  unfolding guard_ptrace after_ptrace
  ptrace_succeeds request h = (refl, set_exited (trace-Shows _ (asked request (trace-Shows _ h))))

  -- A request that finds no process: it returns -1, and the flag stays.
  pub ptrace_esrch :
      (request : Request) {v : View} {w : World}
      → Shows s v w
      → Returns (guard_ptrace request (some esrch) w) (λ rc w'. (rc ≡ minus_one) × Shows s v w')
  unfolding guard_ptrace after_ptrace
  ptrace_esrch request h = (refl, trace-Shows _ (asked request (trace-Shows _ h)))
