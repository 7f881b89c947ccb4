-- ===== src/Pipe/Flow.antt =====
-- P2A: Scheduling/pipe.c: one reader and one writer of a pipe, neither killed, as interleaved steps.
-- Each call of `piperead` or `pipewrite` runs up to its return or its `sleep`; a wakeup makes the
-- sleeper ready to run its loop again.
pub mod Order
pub mod Runs
use compsci537_introduction.Common.{ℕ, ◌≡◌, true, false, Bool, [], ◌∷◌, ◌++◌, List, if◌then◌else◌}
use compsci537_introduction.Pipe.{
  Pipe, Side, readers, writers, pipeclose, pipewrite, piperead, Written, all_written, write_failed,
  write_sleeps, Received, received, read_failed, read_sleeps,
}

-- A process in no call, one that can run, and one asleep, with what its call has left to do.
pub data Mode {ℓ} (A : Type ℓ) : Type ℓ where
  idle : Mode A
  ready asleep : A → Mode A

unfoldable pub is_woken : Side → List Side → Bool
is_woken side [] = false
is_woken readers (readers ∷ woken) = true
is_woken writers (writers ∷ woken) = true
is_woken readers (writers ∷ woken) = is_woken readers woken
is_woken writers (readers ∷ woken) = is_woken writers woken

unfoldable pub rouse {ℓ} : {A : Type ℓ} → Bool → Mode A → Mode A
rouse true (asleep a) = ready a
rouse true m = m
rouse false m = m

-- The pipe and its two processes, with all the bytes that write calls were given and all that read
-- calls returned.
pub record Flow : Type 0 where
  pub pipe : Pipe
  pub reader : Mode ℕ
  pub writer : Mode (List ℕ)
  pub given : List ℕ
  pub got : List ℕ

unfoldable pub read_ended : Received → ℕ → Flow → Flow
read_ended (received out) n f = record f { reader = idle; got = f.got ++ out }
read_ended read_failed n f = record f { reader = idle }
read_ended read_sleeps n f = record f { reader = asleep n }

unfoldable pub read_runs : Flow → ℕ → Flow
unfolding rouse is_woken read_ended
read_runs f n =
    let (end, q, woken) = piperead false f.pipe n in
    read_ended end n (record f { pipe = q; writer = rouse (is_woken writers woken) f.writer })

unfoldable pub write_ended : Written → Flow → Flow
write_ended all_written f = record f { writer = idle }
write_ended write_failed f = record f { writer = idle }
write_ended (write_sleeps left) f = record f { writer = asleep left }

unfoldable pub write_runs : Flow → List ℕ → Flow
unfolding rouse is_woken write_ended
write_runs f bytes =
    let (end, q, woken) = pipewrite false f.pipe bytes in
    write_ended end (record f { pipe = q; reader = rouse (is_woken readers woken) f.reader })

unfoldable pub closed : Flow → Bool → Flow
unfolding pipeclose rouse is_woken
closed f writable =
    let (q, woken, freed) = pipeclose f.pipe writable in
    record f {
      pipe = q;
      reader = rouse (is_woken readers (woken ∷ [])) f.reader;
      writer = rouse (is_woken writers (woken ∷ [])) f.writer;
    }

pub data Step (f : Flow) : Flow → Type 0 where
  read_called :
      (n : ℕ) → f.reader ≡ idle → f.pipe.readopen ≡ true → Step f (record f { reader = ready n })
  write_called :
      (bytes : List ℕ)
      → f.writer ≡ idle
      → f.pipe.writeopen ≡ true
      → Step f (record f { writer = ready bytes; given = f.given ++ bytes })
  reader_ran : (n : ℕ) → f.reader ≡ ready n → Step f (read_runs f n)
  writer_ran : (bytes : List ℕ) → f.writer ≡ ready bytes → Step f (write_runs f bytes)
  reader_closed : f.reader ≡ idle → Step f (closed f false)
  writer_closed : f.writer ≡ idle → Step f (closed f true)

-- What a run from a new pipe reaches.
pub data Reach (f : Flow) : Flow → Type 0 where
  at_start : Reach f f
  then_step : (g h : Flow) → Reach f g → Step g h → Reach f h
