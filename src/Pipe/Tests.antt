-- ===== src/Pipe/Tests.antt =====
-- P2A: Scheduling/pipe.c at concrete pipes.
use compsci537_introduction.Common.{
  ℕ, ◌≡◌, ◌≢◌, refl, true, false, List, [], ◌∷◌, replicate, length, length-replicate, arith,
}
use compsci537_introduction.Pipe.{Pipe, pipesize, pipe_init, pipewrite, piperead}
use compsci537_introduction.Pipe.Queue.{IsValid}
use compsci537_introduction.Pipe.Write.{Wrote, pipewrite-Wrote}
use compsci537_introduction.Pipe.Read.{ReadEnd, piperead-ReadEnd}
use compsci537_introduction.Pipe.Flow.{
  Flow, asleep, Reach, at_start, then_step, read_called, reader_ran, read_runs, ready,
}
use compsci537_introduction.Pipe.Flow.Order.{IsSound}
use compsci537_introduction.Pipe.Flow.Runs.{started, Reach-IsSound, never_both_asleep}

abbrev page : List ℕ
page = replicate 512 0

page_size : length page ≡ pipesize
page_size = length-replicate {A = ℕ} 512 0

abbrev fresh : Pipe
fresh = record { bytes = page; nread = 0; nwrite = 0; readopen = true; writeopen = true }

fresh-IsValid : IsValid fresh
fresh-IsValid = record {
  page = page_size;
  reads = omega arith;
  writes = omega arith;
  fits = omega arith;
}

pipewrite-Wrote_example :
    (let (end, q, woken) = pipewrite false fresh (5 ∷ 6 ∷ []) in
      Wrote false fresh (5 ∷ 6 ∷ []) end q woken)
pipewrite-Wrote_example = pipewrite-Wrote false fresh (5 ∷ 6 ∷ []) fresh-IsValid

piperead-ReadEnd_example :
    (let (end, q, woken) = piperead false fresh 3 in ReadEnd false fresh 3 q woken end)
piperead-ReadEnd_example = piperead-ReadEnd false fresh 3 fresh-IsValid

-- The reader calls, finds nothing and sleeps.
abbrev called : Flow
called = record (started page) { reader = ready 3 }

abbrev waiting : Flow
waiting = read_runs called 3

waiting_run : Reach (started page) waiting
unfolding started pipe_init
waiting_run =
    then_step called waiting (then_step (started page) called at_start (read_called 3 refl refl))
      (reader_ran 3 refl)

waiting_asleep : waiting.reader ≡ asleep 3
unfolding read_runs started pipe_init piperead
waiting_asleep = refl

Reach-IsSound_example : IsSound waiting
Reach-IsSound_example = Reach-IsSound page waiting page_size waiting_run

never_both_asleep_example : waiting.writer ≢ asleep (5 ∷ [])
never_both_asleep_example =
    never_both_asleep page waiting 3 (5 ∷ []) page_size waiting_run waiting_asleep
