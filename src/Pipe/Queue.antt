-- ===== src/Pipe/Queue.antt =====
-- P2A: Scheduling/pipe.c: the pipe and the queue that it stands for.
use compsci537_introduction.Common.{
  ℕ, zero, suc, ◌+◌, ◌-◌, ◌%◌, ◌≤◌, ◌<◌, ◌≡◌, refl, ap, ◌∙◌, ◌≢◌, true, false, [], ◌∷◌, ◌++◌, List,
  arith, get_or, set, length, length-set,
}
use mathlib.Core.Path.{ap₂}
use compsci537_introduction.Common.Words.{u32, u32_mod}
use compsci537_introduction.Pipe.{Pipe, pipesize, is_full, push}

-- The bytes in the buffer: the counters wrap at 2^32, so their distance is taken modulo 2^32.
abbrev pub used : Pipe → ℕ
used p = u32 (p.nwrite + u32_mod - p.nread)

pub record IsValid (p : Pipe) : Type 0 where
  pub page : length p.bytes ≡ pipesize
  pub reads : p.nread < u32_mod
  pub writes : p.nwrite < u32_mod
  pub fits : used p ≤ pipesize

-- The `n` bytes from counter `r` on.
unfoldable pub window : List ℕ → ℕ → ℕ → List ℕ
window bytes r zero = []
window bytes r (suc n) = get_or bytes (r % pipesize) 0 ∷ window bytes (u32 (r + 1)) n

-- The queue that a pipe holds, oldest byte first.
abbrev pub contents : Pipe → List ℕ
contents p = window p.bytes p.nread (used p)

get_or-set_self : (bs : List ℕ) (i v : ℕ) → i < length bs → get_or (set bs i v) i 0 ≡ v
get_or-set_self [] i v h = absurd (omega arith)
get_or-set_self (b ∷ bs) zero v h = refl
get_or-set_self (b ∷ bs) (suc i) v h = get_or-set_self bs i v (omega arith)

get_or-set_ne : (bs : List ℕ) (i j v : ℕ) → i ≢ j → get_or (set bs i v) j 0 ≡ get_or bs j 0
get_or-set_ne [] i j v h = refl
get_or-set_ne (b ∷ bs) zero zero v h = absurd (h refl)
get_or-set_ne (b ∷ bs) zero (suc j) v h = refl
get_or-set_ne (b ∷ bs) (suc i) zero v h = refl
get_or-set_ne (b ∷ bs) (suc i) (suc j) v h = get_or-set_ne bs i j v (λ e. h (ap suc e))

pub length-window : (bytes : List ℕ) (r n : ℕ) → length (window bytes r n) ≡ n
unfolding window
length-window bytes r zero = refl
length-window bytes r (suc n) = ap suc (length-window bytes (u32 (r + 1)) n)

-- Writing at the end of a window of fewer than 512 bytes extends it.
window-set :
    (bytes : List ℕ) (r w n byte : ℕ)
    → length bytes ≡ pipesize
    → r < u32_mod
    → w ≡ u32 (r + n)
    → n < pipesize
    → window (set bytes (w % pipesize) byte) r (suc n) ≡ window bytes r n ++ (byte ∷ [])
unfolding window
window-set bytes r w zero byte s h e b =
    let same : r % pipesize ≡ w % pipesize = omega arith in
    rw (same, get_or-set_self bytes (w % pipesize) byte (omega arith))
window-set bytes r w (suc n) byte s h e b =
    ap₂ ◌∷◌ (get_or-set_ne bytes (w % pipesize) (r % pipesize) byte (omega arith))
      (window-set bytes (u32 (r + 1)) w n byte s (omega arith) (omega arith) (omega arith))

pub used_full : (p : Pipe) → IsValid p → is_full p ≡ false → used p < pipesize
used_full p v room = let r = v.reads in let w = v.writes in let f = v.fits in ground arith

pub used_full_true : (p : Pipe) → IsValid p → is_full p ≡ true → used p ≡ pipesize
used_full_true p v full = let r = v.reads in let w = v.writes in let f = v.fits in ground arith

used-push :
    (r w : ℕ)
    → r < u32_mod
    → w < u32_mod
    → u32 (w + u32_mod - r) < pipesize
    → u32 (u32 (w + 1) + u32_mod - r) ≡ suc (u32 (w + u32_mod - r))
used-push r w hr hw h = omega arith

pub push-IsValid : (p : Pipe) (byte : ℕ) → IsValid p → used p < pipesize → IsValid (push p byte)
push-IsValid p byte v room = record {
  page = length-set p.bytes (p.nwrite % pipesize) byte ∙ v.page;
  reads = v.reads;
  writes = omega arith;
  fits = omega (arith, used-push p.nread p.nwrite v.reads v.writes room);
}

pub push-contents :
    (p : Pipe) (byte : ℕ)
    → IsValid p
    → used p < pipesize
    → contents (push p byte) ≡ contents p ++ (byte ∷ [])
push-contents p byte v room =
    let r = v.reads in
    let w = v.writes in
    let bytes = set p.bytes (p.nwrite % pipesize) byte in
    ap (window bytes p.nread) (used-push p.nread p.nwrite v.reads v.writes room)
    ∙ window-set p.bytes p.nread p.nwrite (used p) byte v.page v.reads (omega arith) room

pub pop-used :
    (r w n : ℕ)
    → r < u32_mod
    → w < u32_mod
    → u32 (w + u32_mod - r) ≡ suc n
    → u32 (w + u32_mod - u32 (r + 1)) ≡ n
pop-used r w n hr hw h = omega arith
