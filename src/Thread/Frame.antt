-- ===== src/Thread/Frame.antt =====
-- The frame of an exception in memory: the `push` and the `pop` of arch/cpu/exceptions/ivt.S.
use betriebssysteme.Common.{
  ℕ, ◌+◌, ◌<◌, ◌≡◌, arith, refl, ap, List, [], ◌∷◌, get_or, update, ==_refl, ==_of_ne,
}
use betriebssysteme.Thread.{SavedRegisters}
use betriebssysteme.Thread.Trampoline.{Stored, load_multiple, load_multiple-Stored}

-- `struct saved_registers` as words in memory, in the order of its members.
abbrev pub frame_words : SavedRegisters → List ℕ
frame_words f =
    f.r0 ∷ f.r1 ∷ f.r2 ∷ f.r3 ∷ f.r4 ∷ f.r5 ∷ f.r6 ∷ f.r7 ∷ f.r8 ∷ f.r9 ∷ f.r10 ∷ f.r11 ∷ f.r12
    ∷ f.pc ∷ []

-- `push`: words to ascending addresses.
unfoldable pub store_multiple : (ℕ → ℕ) → ℕ → List ℕ → ℕ → ℕ
store_multiple m a [] = m
store_multiple m a (v ∷ vs) = update (store_multiple m (a + 4) vs) a v

-- Loaded words as registers.
abbrev frame_of : List ℕ → SavedRegisters
frame_of ws = record {
  r0 = get_or ws 0 0;
  r1 = get_or ws 1 0;
  r2 = get_or ws 2 0;
  r3 = get_or ws 3 0;
  r4 = get_or ws 4 0;
  r5 = get_or ws 5 0;
  r6 = get_or ws 6 0;
  r7 = get_or ws 7 0;
  r8 = get_or ws 8 0;
  r9 = get_or ws 9 0;
  r10 = get_or ws 10 0;
  r11 = get_or ws 11 0;
  r12 = get_or ws 12 0;
  pc = get_or ws 13 0;
}

-- `pop {r0-r12, lr}`
unfoldable pub load_frame : (ℕ → ℕ) → ℕ → SavedRegisters
load_frame m a = frame_of (load_multiple 14 m a)

pub Stored-update :
    (m : ℕ → ℕ) (a b v : ℕ) (vs : List ℕ) → a < b → Stored m b vs → Stored (update m a v) b vs
Stored-update m a b v [] lt stored = tt
Stored-update m a b v (w ∷ vs) lt (here, rest) =
    (rw (==_of_ne a b (omega arith)) here, Stored-update m a (b + 4) v vs (omega arith) rest)

-- What is pushed is in memory.
pub store-Stored : (m : ℕ → ℕ) (a : ℕ) (vs : List ℕ) → Stored (store_multiple m a vs) a vs
unfolding store_multiple
store-Stored m a [] = tt
store-Stored m a (v ∷ vs) = (
  rw (==_refl a) refl,
  Stored-update (store_multiple m (a + 4) vs) a (a + 4) v vs (omega arith)
      (store-Stored m (a + 4) vs),
)

-- A frame in memory is what is popped.
pub load_frame-Stored :
    (m : ℕ → ℕ) (a : ℕ) (f : SavedRegisters) → Stored m a (frame_words f) → load_frame m a ≡ f
unfolding load_frame
load_frame-Stored m a f stored = ap frame_of (load_multiple-Stored m (frame_words f) [] a stored)
