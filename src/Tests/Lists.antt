-- ===== src/Tests/Lists.antt =====
-- include/lib/list.h and include/lib/ringbuffer.h at work.
use mathlib.Core.Option
use betriebssysteme.Common.{
  ◌≡◌, arith, refl, true, some, List, [], ◌∷◌, ◌++◌, ◌==◌, if◌then◌else◌, inl, inr, Bool-cases,
  update,
}
use betriebssysteme.LinkedList.Rings.{Rings, add_last-Rings, remove-Rings}
use betriebssysteme.LinkedList.{
  Ptr, Links, list_get_first, list_get_last, list_add_last, list_remove_, list_remove_last,
}
use betriebssysteme.LinkedList.Chain.{Ring}
use betriebssysteme.RingBuffer.{RingBuff, buff_putc, buff_getc}
use betriebssysteme.RingBuffer.Fifo
use betriebssysteme.RingBuffer.Inv.{IsValid}
use betriebssysteme.RingBuffer.Refine.{contents, ring_refines}

-- The list with head 10 holds the nodes 1 and 2.
abbrev three : Links
three = record {
  next = update (update (update (λ n. n) 10 1) 1 2) 2 10;
  prev = update (update (update (λ n. n) 10 2) 1 10) 2 1;
}

three-Ring : Ring three 10 (1 ∷ 2 ∷ [])
three-Ring = ground arith

empty-Ring : Ring three 11 []
empty-Ring = ground arith

-- The list with head 10, and an empty one with head 11.
abbrev two_lists : Ptr → List Ptr
two_lists h = if h == 10 then 1 ∷ 2 ∷ [] else []

two-Rings : Rings 10 12 three two_lists
two-Rings = record {
  ring = λ h hd. elim (Bool-cases (h == 10)) [
    | inl e ↦ ground (arith, three-Ring)
    | inr e ↦ ground (arith, empty-Ring)
  ];
  items = λ h a hd. ground arith;
  apart = λ h g a hd hg. ground arith;
}

add_last-Rings_example :
    Rings 10 12 (list_add_last 11 3 three) (update two_lists 11 (two_lists 11 ++ 3 ∷ []))
add_last-Rings_example =
    add_last-Rings 10 12 three two_lists two-Rings 11 (omega arith) 3 (omega arith)
      (λ g hg. ground arith)

remove-Rings_example : Rings 10 12 (list_remove_ 1 three) (update two_lists 10 ([] ++ 2 ∷ []))
remove-Rings_example =
    remove-Rings 10 12 three two_lists two-Rings 10 (omega arith) 1 [] (2 ∷ []) refl

get_both_ends : (list_get_first 10 three ≡ some 1) × (list_get_last 10 three ≡ some 2)
unfolding list_get_first list_get_last
get_both_ends = (refl, refl)

remove_last_node : (list_remove_last 10 three).0 ≡ some 2
unfolding list_remove_last
remove_last_node = refl

-- A ring of two characters whose positions are about to wrap.
abbrev full_ring : RingBuff
full_ring = record { head = 1; tail = 0xffff_ffff; size = 2; mask = 1; buffer = 8 ∷ 9 ∷ [] }

full_ring-IsValid : IsValid 1 full_ring
full_ring-IsValid = omega arith

ring_refines_example :
    let (dropped, b) = buff_putc full_ring 5 in
    ((dropped, contents b) ≡ Fifo.push 2 (9 ∷ 8 ∷ []) 5)
    × IsValid 1 b
    × (Option.map (λ (d, b'). (d, contents b')) (buff_getc full_ring) ≡ Fifo.pop (9 ∷ 8 ∷ []))
ring_refines_example = ring_refines 1 full_ring full_ring-IsValid 5

putc_drops : (buff_putc full_ring 5).0 ≡ true
unfolding buff_putc
putc_drops = refl
