-- ===== src/RingBuffer/Fifo.antt =====
-- What include/lib/ringbuffer.h promises: a queue of at most `cap` characters, oldest first.
use betriebssysteme.Common.{
  ℕ, Bool, true, false, Option, none, some, List, [], ◌∷◌, ◌++◌, ◌==◌, if◌then◌else◌, length,
}

-- A character for a full queue is dropped, and `true` says so.
unfoldable pub push : ℕ → List ℕ → ℕ → Bool × List ℕ
push cap q c = if length q == cap then (true, q) else (false, q ++ c ∷ [])

unfoldable pub pop : List ℕ → Option (ℕ × List ℕ)
pop [] = none
pop (c ∷ q) = some (c, q)
