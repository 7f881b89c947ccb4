-- ===== src/Pipe.antt =====
-- P2A: Scheduling/pipe.c: the ring buffer between a writer and a reader. A call runs under the
-- pipe's lock up to its next `sleep`, as one step.
pub mod Queue
pub mod Write
pub mod Read
pub mod Flow
pub mod Tests
use compsci537_introduction.Common.{
  ℕ, zero, suc, ◌+◌, ◌%◌, Bool, true, false, Option, none, some, List, [], ◌∷◌, ◌==◌, ◌&&◌, ◌||◌,
  not, if◌then◌else◌, get_or, set, replicate,
}
use compsci537_introduction.Common.Words.{u32}

abbrev pub pipesize : ℕ
pipesize = 512

-- `struct pipe`, without its lock. Bytes are only moved.
pub record Pipe : Type 0 where
  pub bytes : List ℕ
  pub nread : ℕ
  pub nwrite : ℕ
  pub readopen : Bool
  pub writeopen : Bool

-- The part of `pipealloc` that makes the pipe in the new page `page`.
unfoldable pub pipe_init : List ℕ → Pipe
pipe_init page = record { bytes = page; nread = 0; nwrite = 0; readopen = true; writeopen = true }

-- The channels a pipe's processes sleep on: readers on `&p->nread`, writers on `&p->nwrite`.
pub data Side : Type 0 where
  readers writers : Side

-- `pipeclose`: the pipe, the channel it wakes, and whether the pipe's page is freed.
unfoldable pub pipeclose : Pipe → Bool → Pipe × Side × Bool
pipeclose p writable =
    let q = if writable then record p { writeopen = false } else record p { readopen = false } in
    let woken = if writable then readers else writers in
    (q, woken, not q.readopen && not q.writeopen)

-- `p->nwrite == p->nread + PIPESIZE`
abbrev pub is_full : Pipe → Bool
is_full p = p.nwrite == u32 (p.nread + pipesize)

-- `p->data[p->nwrite++ % PIPESIZE] = byte`
abbrev pub push : Pipe → ℕ → Pipe
push p byte = record p {
  bytes = set p.bytes (p.nwrite % pipesize) byte;
  nwrite = u32 (p.nwrite + 1);
}

-- How a step of `pipewrite` ends: all written, -1, or asleep with the bytes that are left.
pub data Written : Type 0 where
  all_written write_failed : Written
  write_sleeps : List ℕ → Written

-- The loop of `pipewrite`, from the start or from a wakeup, with the bytes that are left: how it
-- ends, the pipe, and the channels it wakes.
unfoldable pub pipewrite : Bool → Pipe → List ℕ → Written × Pipe × List Side
pipewrite killed p [] = (all_written, p, readers ∷ [])
pipewrite killed p (byte ∷ rest) =
    let on = pipewrite killed (push p byte) rest in
    if is_full p
    then (if not p.readopen || killed
        then (write_failed, p, [])
        else (write_sleeps (byte ∷ rest), p, readers ∷ []))
    else on

-- The loop of `piperead` that copies at most `n` bytes: the bytes, and the pipe.
unfoldable pub copy_out : Pipe → ℕ → List ℕ × Pipe
copy_out p zero = ([], p)
copy_out p (suc n) =
    let rest = copy_out (record p { nread = u32 (p.nread + 1) }) n in
    if p.nread == p.nwrite
    then ([], p)
    else (get_or p.bytes (p.nread % pipesize) 0 ∷ rest.0, rest.1)

-- How a step of `piperead` ends: with bytes, with -1, or asleep.
pub data Received : Type 0 where
  received : List ℕ → Received
  read_failed read_sleeps : Received

-- `piperead`, from the start or from a wakeup.
unfoldable pub piperead : Bool → Pipe → ℕ → Received × Pipe × List Side
unfolding copy_out
piperead killed p n =
    let (out, q) = copy_out p n in
    if (p.nread == p.nwrite) && p.writeopen
    then (if killed then (read_failed, p, []) else (read_sleeps, p, []))
    else (received out, q, writers ∷ [])
