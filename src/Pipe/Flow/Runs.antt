-- ===== src/Pipe/Flow/Runs.antt =====
-- P2A: Scheduling/pipe.c: runs of a reader and a writer from a new pipe.
use compsci537_introduction.Common.{ℕ, ◌≡◌, ◌≢◌, refl, sym, ap, [], List, arith, length}
use mathlib.Core.Path.{subst}
use compsci537_introduction.Pipe.{pipesize, pipe_init}
use compsci537_introduction.Pipe.Queue.{used, window, length-window}
use compsci537_introduction.Pipe.Flow.{Flow, idle, asleep, Reach, at_start, then_step}
use compsci537_introduction.Pipe.Flow.Order.{ReaderSound, WriterSound, IsSound, Step-IsSound}

-- The state after `pipealloc`.
unfoldable pub started : List ℕ → Flow
started page = record { pipe = pipe_init page; reader = idle; writer = idle; given = []; got = [] }

started-IsSound : (page : List ℕ) → length page ≡ pipesize → IsSound (started page)
unfolding started pipe_init window
started-IsSound page size = record {
  valid = record { page = size; reads = omega arith; writes = omega arith; fits = omega arith };
  in_order = λ o. refl;
  reading = _;
  writing = _;
}

-- In every run of one reader and one writer that are not killed, from a new pipe: the buffer stays
-- valid; as long as the read end is open, the bytes that write calls were given are those that
-- reads returned, then those in the pipe, then those still to be written; a reader sleeps only on
-- an empty pipe with an open write end, and a writer only on a full pipe with an open read end.
pub Reach-IsSound :
    (page : List ℕ) (f : Flow) → length page ≡ pipesize → Reach (started page) f → IsSound f
Reach-IsSound page f size (at_start) = started-IsSound page size
Reach-IsSound page f size (then_step g _ r st) = Step-IsSound g f st (Reach-IsSound page g size r)

-- In every such run, reader and writer are never both asleep.
pub never_both_asleep :
    (page : List ℕ) (f : Flow) (n : ℕ) (bytes : List ℕ)
    → length page ≡ pipesize
    → Reach (started page) f
    → f.reader ≡ asleep n
    → f.writer ≢ asleep bytes
never_both_asleep page f n bytes size run r w =
    let s = Reach-IsSound page f size run in
    let hungry : ReaderSound f.pipe (asleep n) = subst (ReaderSound f.pipe) r s.reading in
    let stuffed : WriterSound f.pipe (asleep bytes) = subst (WriterSound f.pipe) w s.writing in
    absurd (
      omega (
        arith,
        sym (length-window f.pipe.bytes f.pipe.nread (used f.pipe)),
        ap length hungry.1,
        stuffed.1,
      ))
