-- ===== src/LinkedList/Remove.antt =====
-- list_remove_, list_remove_first, list_remove_last and list_remove of include/lib/list.h.
use mathlib.Core.Path.{subst, sym}
use betriebssysteme.Common.{
  if_same, ℕ, zero, suc, ◌≡◌, ◌≢◌, ◌<◌, List, [], ◌∷◌, ◌++◌, arith, ◌∉◌, Distinct, has-append,
  has-remove, Distinct-remove, length, none, some, ==_of_ne, ==_refl,
}
use betriebssysteme.LinkedList.{
  Ptr, Links, set_next, set_prev, list_remove_, list_remove_first, found, missing, list_remove_loop,
  list_remove,
}
use betriebssysteme.LinkedList.Chain.{
  Chain, Ring, last_of, first_of_or, last_of-ne, next-Chain, prev-Chain, Chain-split,
  Chain-set_next, Chain-set_prev, first_of_cases,
}

-- What the two assignments leave when the node between `a` and `b` is taken out.
abbrev pub unlinked : Links → Ptr → Ptr → Links
unlinked l a b = set_prev b a (set_next a b l)

pub Chain-unlinked_frame :
    (l : Links) (p : Ptr) (xs : List Ptr) (q a b : Ptr)
    → Chain l p xs q
    → a ∉ p ∷ xs
    → b ∉ xs
    → b ≢ q
    → Chain (unlinked l a b) p xs q
Chain-unlinked_frame l p xs q a b c ha hb bq =
    Chain-set_prev _ p xs q b a (Chain-set_next l p xs q a b c ha) hb bq

Chain-unlinked :
    (l : Links) (p x : Ptr) (xs ys : List Ptr) (q : Ptr)
    → Chain l p (xs ++ x ∷ ys) q
    → p ∉ xs ++ x ∷ ys
    → q ∉ xs ++ x ∷ ys
    → Distinct (xs ++ x ∷ ys)
    → Chain (unlinked l (last_of p xs) (first_of_or ys q)) p (xs ++ ys) q
Chain-unlinked l p x [] [] q c hp hq d = ground arith
Chain-unlinked l p x [] (y ∷ ys) q c hp hq d = (
  ground arith,
  ground arith,
  Chain-unlinked_frame l y ys q p y c.2.2 (ground arith) d.1.0 (ground arith),
)
Chain-unlinked l p x (w ∷ xs) ys q c hp hq d =
    let away : p ≢ last_of w xs = last_of-ne p w xs (ground (arith, has-append p xs (x ∷ ys))) in
    let off : w ≢ first_of_or ys q =
      ground (arith, first_of_cases ys q, has-append w xs (x ∷ ys), d.0) in
    (ground arith, ground arith, Chain-unlinked l w x xs ys q c.2 d.0 (ground arith) d.1)

module _ (l : Links) (h x : Ptr) (xs ys : List Ptr) (r : Ring l h (xs ++ x ∷ ys)) where
  pub list_remove_-unlinked : list_remove_ x l ≡ unlinked l (last_of h xs) (first_of_or ys h)
  unfolding list_remove_
  list_remove_-unlinked =
      let parts = Chain-split l h xs x ys h r.chain in
      let back : l.prev x ≡ last_of h xs = prev-Chain l h xs x parts.0 in
      let on : l.next x ≡ first_of_or ys h = next-Chain l x ys h parts.1 in rw (back, on, if_same)

  -- `list_remove_` takes a node out of the list that holds it, and leaves the others in order.
  pub list_remove_-Ring : Ring (list_remove_ x l) h (xs ++ ys)
  list_remove_-Ring = record {
    chain =
        subst (λ g. Chain g h (xs ++ ys) h) (sym list_remove_-unlinked)
          (Chain-unlinked l h x xs ys h r.chain r.distinct.0 r.distinct.0 r.distinct.1);
    distinct = (
      ground (arith, has-remove h xs x ys r.distinct.1, r.distinct.0),
      Distinct-remove xs x ys r.distinct.1,
    );
  }

module _ (l : Links) (h : Ptr) where
  -- On an empty list `list_remove_first` returns null and changes nothing.
  pub list_remove_first-empty : Ring l h [] → list_remove_first h l ≡ (none, l)
  unfolding list_remove_first
  list_remove_first-empty r = rw (r.chain.0, ==_refl h)

  -- Otherwise it returns the first node and leaves the list of the others.
  pub list_remove_first-cons :
      (x : Ptr) (xs : List Ptr)
      → Ring l h (x ∷ xs)
      → (list_remove_first h l ≡ (some x, list_remove_ x l)) × Ring (list_remove_ x l) h xs
  unfolding list_remove_first
  list_remove_first-cons x xs r =
      (rw (r.chain.0, ==_of_ne h x (ground (arith, r.distinct.0))), list_remove_-Ring l h x [] xs r)

  -- The search walks past the nodes before `x`, and takes `x` out.
  list_remove_loop-found :
      (fuel : ℕ) (p x : Ptr) (xs ys : List Ptr)
      → Chain l p (xs ++ x ∷ ys) h
      → h ∉ xs ++ x ∷ ys
      → Distinct (xs ++ x ∷ ys)
      → length xs < fuel
      → list_remove_loop fuel h x (l.next p) l ≡ found x (list_remove_ x l)
  unfolding list_remove_loop
  list_remove_loop-found zero p x xs ys c hq d lt = absurd (omega arith)
  list_remove_loop-found (suc fuel) p x [] ys c hq d lt =
      rw (c.0, ==_of_ne x h (ground arith), ==_refl x)
  list_remove_loop-found (suc fuel) p x (w ∷ xs) ys c hq d lt =
      rw
        (
          c.0,
          ==_of_ne w h (ground arith),
          ==_of_ne w x (ground (arith, has-append w xs (x ∷ ys), d.0)),
        )
        (list_remove_loop-found fuel w x xs ys c.2 (ground arith) d.1 (omega arith))

  list_remove_loop-missing :
      (fuel : ℕ) (p x : Ptr) (xs : List Ptr)
      → Chain l p xs h
      → h ∉ xs
      → x ∉ xs
      → length xs < fuel
      → list_remove_loop fuel h x (l.next p) l ≡ missing l
  unfolding list_remove_loop
  list_remove_loop-missing zero p x xs c hq hx lt = absurd (omega arith)
  list_remove_loop-missing (suc fuel) p x [] c hq hx lt = rw (c.0, ==_refl h)
  list_remove_loop-missing (suc fuel) p x (w ∷ xs) c hq hx lt =
      rw (c.0, ==_of_ne w h (ground arith), ==_of_ne w x (ground arith))
        (list_remove_loop-missing fuel w x xs c.2 (ground arith) (ground arith) (omega arith))

  -- With more fuel than nodes before it, `list_remove` finds a node of the list and takes it out.
  pub list_remove-found :
      (fuel : ℕ) (x : Ptr) (xs ys : List Ptr)
      → Ring l h (xs ++ x ∷ ys)
      → length xs < fuel
      → (list_remove fuel h x l ≡ found x (list_remove_ x l)) × Ring (list_remove_ x l) h (xs ++ ys)
  unfolding list_remove
  list_remove-found fuel x xs ys r lt = (
    list_remove_loop-found fuel h x xs ys r.chain r.distinct.0 r.distinct.1 lt,
    list_remove_-Ring l h x xs ys r,
  )

  -- A node that is not in the list is not found, and nothing is changed.
  list_remove-missing :
      (fuel : ℕ) (x : Ptr) (xs : List Ptr)
      → Ring l h xs
      → x ∉ xs
      → length xs < fuel
      → list_remove fuel h x l ≡ missing l
  unfolding list_remove
  list_remove-missing fuel x xs r hx lt =
      list_remove_loop-missing fuel h x xs r.chain r.distinct.0 hx lt
