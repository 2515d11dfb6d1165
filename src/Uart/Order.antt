-- ===== src/Uart/Order.antt =====
-- No character is lost, repeated or overtaken on its way through the driver, but for those that find
-- the buffer full.
use mathlib.Core.List.{append_assoc, append-nil}
use betriebssysteme.Common.{
  ℕ, ◌+◌, ◌%◌, ◌<◌, ◌≤◌, ==_of_ne, ◌≡◌, ◌⊎◌, inl, inr, arith, refl, sym, ap, ◌∙◌, List, [], ◌∷◌,
  ◌++◌, ◌==◌, length, length-append, Bool-cases,
}
use betriebssysteme.RingBuffer.Fifo
use betriebssysteme.Thread.{ThreadPtr}
use betriebssysteme.Uart.Given.{Gifts, given_from, given_all, accepted_from, accepted_all}
use betriebssysteme.Uart.Spec.{Inbox, arrive_from, arrive_all}

-- The characters, oldest first.
abbrev pub chars : Gifts → List ℕ
chars [] = []
chars ((t, c) ∷ gs) = c ∷ chars gs

pub chars-append : (gs hs : Gifts) → chars (gs ++ hs) ≡ chars gs ++ chars hs
chars-append [] hs = refl
chars-append ((t, c) ∷ gs) hs = ap (λ q. c ∷ q) (chars-append gs hs)

-- No thread waits while a character is stored.
abbrev pub IsPrompt : Inbox → Type 0
IsPrompt i = (i.queues.wait ≡ []) ⊎ (i.stored ≡ [])

-- What was stored and what is accepted are, in this order, what is given and what is stored then.
abbrev pub InOrder : Inbox → List ℕ → Gifts → Inbox → Type 0
InOrder i accepted gs j = i.stored ++ accepted ≡ chars gs ++ j.stored

pub InOrder-trans :
    (i j k : Inbox) (xs ys : List ℕ) (gs hs : Gifts)
    → InOrder i xs gs j
    → InOrder j ys hs k
    → InOrder i (xs ++ ys) (gs ++ hs) k
InOrder-trans i j k xs ys gs hs first next =
    sym (append_assoc i.stored xs ys)
    ∙ ap (λ q. q ++ ys) first
    ∙ append_assoc (chars gs) j.stored ys
    ∙ ap (λ q. chars gs ++ q) next
    ∙ sym (append_assoc (chars gs) (chars hs) k.stored)
    ∙ ap (λ q. q ++ k.stored) (sym (chars-append gs hs))

module _ (c : ℕ) (i : Inbox) where
  arrive_from-InOrder :
      (w : List ThreadPtr)
      → i.queues.wait ≡ w
      → IsPrompt i
      → InOrder i (accepted_from w c i) (given_from w c) (arrive_from w c i)
  unfolding Fifo.push
  arrive_from-InOrder [] e prompt = elim (Bool-cases (length i.stored == 128)) [
    | inl full ↦ rw full (append-nil i.stored)
    | inr room ↦ rw room refl
  ]
  arrive_from-InOrder (t ∷ ts) e prompt =
      let none_stored : i.stored ≡ [] = ground (arith, prompt, e) in rw none_stored refl

  arrive_from-IsPrompt :
      (w : List ThreadPtr) → i.queues.wait ≡ w → IsPrompt i → IsPrompt (arrive_from w c i)
  arrive_from-IsPrompt [] e prompt = inl e
  arrive_from-IsPrompt (t ∷ ts) e prompt = inr (ground (arith, prompt, e))

pub arrive_all-InOrder :
    (cs : List ℕ) (i : Inbox)
    → IsPrompt i
    → InOrder i (accepted_all cs i) (given_all cs i) (arrive_all cs i)
unfolding accepted_all given_all arrive_all
arrive_all-InOrder [] i prompt = append-nil i.stored
arrive_all-InOrder (dr ∷ rest) i prompt =
    let j : Inbox = arrive_from i.queues.wait (dr % 256) i in
    InOrder-trans i j (arrive_all rest j) (accepted_from i.queues.wait (dr % 256) i)
      (accepted_all rest j) (given_from i.queues.wait (dr % 256)) (given_all rest j)
      (arrive_from-InOrder (dr % 256) i i.queues.wait refl prompt)
      (arrive_all-InOrder rest j (arrive_from-IsPrompt (dr % 256) i i.queues.wait refl prompt))

-- The characters as they arrive; `char` has eight bits.
unfoldable pub as_chars : List ℕ → List ℕ
as_chars [] = []
as_chars (dr ∷ rest) = dr % 256 ∷ as_chars rest

pub length-as_chars : (cs : List ℕ) → length (as_chars cs) ≡ length cs
unfolding as_chars
length-as_chars [] = refl
length-as_chars (dr ∷ rest) = omega (arith, length-as_chars rest)

length-arrive_from :
    (c : ℕ) (i : Inbox) (w : List ThreadPtr)
    → length (arrive_from w c i).stored ≤ length i.stored + 1
unfolding Fifo.push
length-arrive_from c i [] = elim (Bool-cases (length i.stored == 128)) [
  | inl full ↦ rw full (omega arith)
  | inr room ↦ rw room (omega (arith, length-append i.stored (c ∷ [])))
]
length-arrive_from c i (t ∷ ts) = omega arith

accepted_from-room :
    (c : ℕ) (i : Inbox) (w : List ThreadPtr) → length i.stored < 128 → accepted_from w c i ≡ c ∷ []
accepted_from-room c i [] lt = rw (==_of_ne (length i.stored) 128 (omega arith)) refl
accepted_from-room c i (t ∷ ts) lt = refl

-- With room for all that arrive, all are accepted.
pub accepted_all-room :
    (cs : List ℕ) (i : Inbox) → length i.stored + length cs ≤ 128 → accepted_all cs i ≡ as_chars cs
unfolding accepted_all as_chars
accepted_all-room [] i le = refl
accepted_all-room (dr ∷ rest) i le =
    let j : Inbox = arrive_from i.queues.wait (dr % 256) i in
    rw
      (
        accepted_from-room (dr % 256) i i.queues.wait (omega arith),
        accepted_all-room rest j (omega (arith, length-arrive_from (dr % 256) i i.queues.wait)),
      )
      refl

pub length-arrive_all :
    (cs : List ℕ) (i : Inbox) → length (arrive_all cs i).stored ≤ length i.stored + length cs
unfolding arrive_all
length-arrive_all [] i = omega arith
length-arrive_all (dr ∷ rest) i =
    let j : Inbox = arrive_from i.queues.wait (dr % 256) i in
    omega (arith, length-arrive_all rest j, length-arrive_from (dr % 256) i i.queues.wait)
