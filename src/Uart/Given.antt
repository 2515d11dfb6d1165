-- ===== src/Uart/Given.antt =====
-- Which thread gets which of the characters that arrive, and which of them are kept.
use betriebssysteme.Common.{
  ℕ, ◌%◌, ◌≡◌, inl, inr, refl, List, [], ◌∷◌, ◌++◌, ◌==◌, Bool-cases, length, if◌then◌else◌,
}
use betriebssysteme.Thread.{ThreadPtr}
use betriebssysteme.Uart.Spec.{Inbox, arrive_from, uart_input_buffer_size}

-- A thread with the character that it got, oldest first.
abbrev pub Gifts : Type 0
Gifts = List (ThreadPtr × ℕ)

abbrev pub given_from : List ThreadPtr → ℕ → Gifts
given_from [] c = []
given_from (t ∷ ts) c = (t, c) ∷ []

unfoldable pub given_all : List ℕ → Inbox → Gifts
given_all [] i = []
given_all (dr ∷ rest) i =
    given_from i.queues.wait (dr % 256) ++ given_all rest (arrive_from i.queues.wait (dr % 256) i)

-- Only a character that no thread waits for, and that finds the buffer full, is dropped.
abbrev pub accepted_from : List ThreadPtr → ℕ → Inbox → List ℕ
accepted_from [] c i = if length i.stored == uart_input_buffer_size then [] else c ∷ []
accepted_from (t ∷ ts) c i = c ∷ []

unfoldable pub accepted_all : List ℕ → Inbox → List ℕ
accepted_all [] i = []
accepted_all (dr ∷ rest) i =
    accepted_from i.queues.wait (dr % 256) i
    ++ accepted_all rest (arrive_from i.queues.wait (dr % 256) i)

-- What one thread got.
abbrev pub given_to : ThreadPtr → Gifts → List ℕ
given_to t [] = []
given_to t ((u, c) ∷ gs) = if t == u then c ∷ given_to t gs else given_to t gs

pub given_to-append :
    (t : ThreadPtr) (gs hs : Gifts) → given_to t (gs ++ hs) ≡ given_to t gs ++ given_to t hs
given_to-append t [] hs = refl
given_to-append t ((u, c) ∷ gs) hs = elim (Bool-cases (t == u)) [
  | inl e ↦ rw (e, given_to-append t gs hs) refl
  | inr e ↦ rw (e, given_to-append t gs hs) refl
]
