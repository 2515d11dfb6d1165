-- ===== src/LinkedList/Insert.antt =====
-- list_add_, list_add_first and list_add_last of include/lib/list.h.
use mathlib.Core.List.{append-nil}
use mathlib.Core.Path.{subst, sym}
use betriebssysteme.Common.{
  ==_of_ne, ◌≡◌, ◌≢◌, List, [], ◌∷◌, ◌++◌, arith, ◌∉◌, Distinct, has-append, Distinct-snoc,
}
use betriebssysteme.LinkedList.{
  Ptr, Links, set_next, set_prev, list_add_, list_add_first, list_add_last,
}
use betriebssysteme.LinkedList.Chain.{
  Chain, Ring, last_of, first_of_or, last_of-ne, next-Chain, prev-Chain, next_last-Chain,
  Chain-set_next, Chain-set_prev, first_of_cases,
}

-- What the four assignments leave when the new node `n` comes between `z` and `b`.
abbrev pub linked : Links → Ptr → Ptr → Ptr → Links
linked l z n b = set_next z n (set_prev b n (set_next n b (set_prev n z l)))

list_add_-linked :
    (l : Links) (z n b : Ptr) → l.next z ≡ b → z ≢ n → list_add_ n z l ≡ linked l z n b
unfolding list_add_
list_add_-linked l z n b e ne = rw (==_of_ne n z (λ p. ne (sym p)), e)

-- Writes around a new node leave a chain that they do not touch.
pub Chain-linked_frame :
    (l : Links) (p : Ptr) (xs : List Ptr) (q z n b : Ptr)
    → Chain l p xs q
    → z ∉ p ∷ xs
    → n ∉ p ∷ xs
    → n ≢ q
    → b ∉ xs
    → b ≢ q
    → Chain (linked l z n b) p xs q
Chain-linked_frame l p xs q z n b c hz hn nq hb bq =
    Chain-set_next _ p xs q z n
      (Chain-set_prev _ p xs q b n
        (Chain-set_next _ p xs q n b (Chain-set_prev l p xs q n z c (ground arith) nq) hn) hb bq)
      hz

Chain-linked_head :
    (l : Links) (p n : Ptr) (ys : List Ptr) (q : Ptr)
    → Chain l p ys q
    → p ∉ ys
    → q ∉ ys
    → Distinct ys
    → n ∉ p ∷ ys
    → n ≢ q
    → Chain (linked l p n (first_of_or ys q)) p (n ∷ ys) q
Chain-linked_head l p n [] q c hp hq d hn ne = ground arith
Chain-linked_head l p n (y ∷ ys) q c hp hq d hn ne = (
  ground arith,
  ground arith,
  (
    ground arith,
    ground arith,
    Chain-linked_frame l y ys q p n y c.2 hp (ground arith) ne d.0 (ground arith),
  ),
)

Chain-linked :
    (l : Links) (p n : Ptr) (xs ys : List Ptr) (q : Ptr)
    → Chain l p (xs ++ ys) q
    → p ∉ xs ++ ys
    → q ∉ xs ++ ys
    → Distinct (xs ++ ys)
    → n ∉ p ∷ (xs ++ ys)
    → n ≢ q
    → Chain (linked l (last_of p xs) n (first_of_or ys q)) p (xs ++ n ∷ ys) q
Chain-linked l p n [] ys q c hp hq d hn ne = Chain-linked_head l p n ys q c hp hq d hn ne
Chain-linked l p n (x ∷ xs) ys q c hp hq d hn ne =
    let away : p ≢ last_of x xs = last_of-ne p x xs (ground (arith, has-append p xs ys)) in
    let off : x ≢ first_of_or ys q = ground (arith, first_of_cases ys q, has-append x xs ys, d.0) in
    (
      ground arith,
      ground arith,
      Chain-linked l x n xs ys q c.2 d.0 (ground arith) d.1 (ground arith) ne,
    )

module _ (l : Links) (h n : Ptr) (xs : List Ptr) (r : Ring l h xs) (new : n ∉ h ∷ xs) where
  pub list_add_first-linked : list_add_first h n l ≡ linked l h n (first_of_or xs h)
  unfolding list_add_first
  list_add_first-linked = list_add_-linked l h n _ (next-Chain l h xs h r.chain) (ground arith)

  pub list_add_last-linked : list_add_last h n l ≡ linked l (last_of h xs) n h
  unfolding list_add_last
  list_add_last-linked = rw (prev-Chain l h xs h r.chain) (
      list_add_-linked l (last_of h xs) n h (next_last-Chain l h xs h r.chain)
        (λ e. last_of-ne n h xs new (ground arith)))

  -- `list_add_first` puts a node that is not in the list at its front.
  pub list_add_first-Ring : Ring (list_add_first h n l) h (n ∷ xs)
  list_add_first-Ring = record {
    chain =
        subst (λ g. Chain g h (n ∷ xs) h) (sym list_add_first-linked)
          (Chain-linked l h n [] xs h r.chain r.distinct.0 r.distinct.0 r.distinct.1 new
            (ground arith));
    distinct = (ground (arith, r.distinct.0), (ground arith, r.distinct.1));
  }

  -- `list_add_last` puts a node that is not in the list at its end.
  pub list_add_last-Ring : Ring (list_add_last h n l) h (xs ++ n ∷ [])
  list_add_last-Ring = record {
    chain =
        subst (λ g. Chain g h (xs ++ n ∷ []) h) (sym list_add_last-linked)
          (Chain-linked l h n xs [] h (rw append-nil r.chain) (rw append-nil r.distinct.0)
            (rw append-nil r.distinct.0) (rw append-nil r.distinct.1) (rw append-nil new)
            (ground arith));
    distinct = (
      ground (arith, has-append h xs (n ∷ []), r.distinct.0),
      Distinct-snoc xs n r.distinct.1 (ground arith),
    );
  }
