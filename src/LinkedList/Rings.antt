-- ===== src/LinkedList/Rings.antt =====
-- Several lists of include/lib/list.h over one memory, no node in two of them: an operation on one
-- list leaves the others as they are.
use mathlib.Core.Path.{subst, sym}
use betriebssysteme.Common.{
  ap, ℕ, ◌≡◌, ◌≢◌, ◌<◌, ◌≤◌, refl, ◌⊎◌, inl, inr, List, [], ◌∷◌, ◌++◌, arith, ◌==◌, update, has,
  ◌∈◌, ◌∉◌, has-append, has-remove, Bool-cases, ==_iff,
}
use betriebssysteme.LinkedList.{Ptr, Links, list_remove_, list_add_last}
use betriebssysteme.LinkedList.Chain.{
  Chain, Ring, last_of, first_of_or, last_of_cases, first_of_cases,
}
use betriebssysteme.LinkedList.Insert.{Chain-linked_frame, list_add_last-linked, list_add_last-Ring}
use betriebssysteme.LinkedList.Remove.{
  Chain-unlinked_frame, list_remove_-unlinked, list_remove_-Ring,
}

-- Heads stand at the addresses from `n` up to `m`, the nodes that the lists hold below `n`.
abbrev pub IsHead : ℕ → ℕ → Ptr → Type 0
IsHead n m h = (n ≤ h) × (h < m)

-- The list with head `h` holds the nodes `q h`, for every head `h`.
pub record Rings (n m : ℕ) (l : Links) (q : Ptr → List Ptr) : Type 0 where
  pub ring : (h : Ptr) → IsHead n m h → Ring l h (q h)
  pub items : (h a : Ptr) → IsHead n m h → a ∈ q h → a < n
  pub apart : (h g a : Ptr) → IsHead n m h → IsHead n m g → a ∈ q h → a ∈ q g → h ≡ g

module _ (n m : ℕ) (l : Links) (q : Ptr → List Ptr) (r : Rings n m l q) (h : Ptr)
    (head : IsHead n m h) where
  -- What belongs to one list is no part of another.
  foreign : (g a : Ptr) → IsHead n m g → h ≢ g → (a ≡ h) ⊎ (a ∈ q h) → a ∉ g ∷ q g
  foreign g a hg ne own = ground (arith, r.items h a head, r.items g a hg, r.apart h g a head hg)

  module _ (x : Ptr) (small : x < n) (free : (g : Ptr) → IsHead n m g → x ∉ q g) where
    add_other : (g : Ptr) → IsHead n m g → h ≢ g → Ring (list_add_last h x l) g (q g)
    add_other g hg ne =
        let own : x ∉ h ∷ q h = ground (arith, free h head) in
        let z : Ptr = last_of h (q h) in
        let out : z ∉ g ∷ q g = foreign g z hg ne (last_of_cases h (q h)) in
        let out' : h ∉ g ∷ q g = foreign g h hg ne (inl refl) in
        record {
          chain =
              subst (λ k. Chain k g (q g) g)
                (sym (list_add_last-linked l h x (q h) (r.ring h head) own))
                (Chain-linked_frame l g (q g) g z x h (r.ring g hg).chain out
                  (ground (arith, free g hg)) (ground arith) (ground arith) (ground arith));
          distinct = (r.ring g hg).distinct;
        }

    add-Ring :
        (g : Ptr) → IsHead n m g → Ring (list_add_last h x l) g (update q h (q h ++ x ∷ []) g)
    add-Ring g hg = elim (Bool-cases (h == g)) [
      | inl e ↦ rw e (
          subst (λ k. Ring (list_add_last h x l) k (q h ++ x ∷ [])) ((==_iff h g).0 e)
            (list_add_last-Ring l h x (q h) (r.ring h head) (ground (arith, free h head))))
      | inr e ↦ rw e (add_other g hg (ground arith))
    ]

    -- `list_add_last` of a node that no list holds adds it to the end of its list, and keeps the
    -- others.
    pub add_last-Rings : Rings n m (list_add_last h x l) (update q h (q h ++ x ∷ []))
    add_last-Rings = record {
      ring = add-Ring;
      items =
          λ g a hg. ground (arith, has-append a (q h) (x ∷ []), r.items h a head, r.items g a hg);
      apart = λ g g' a hg hg'. ground (
        arith,
        has-append a (q h) (x ∷ []),
        r.apart g g' a hg hg',
        r.apart h g' a head hg',
        r.apart g h a hg head,
        free g hg,
        free g' hg',
      );
    }

  module _ (x : Ptr) (xs ys : List Ptr) (at : q h ≡ xs ++ x ∷ ys) where
    own-Ring : Ring l h (xs ++ x ∷ ys)
    own-Ring = subst (λ k. Ring l h k) at (r.ring h head)

    remove_other : (g : Ptr) → IsHead n m g → h ≢ g → Ring (list_remove_ x l) g (q g)
    remove_other g hg ne =
        let a : Ptr = last_of h xs in
        let b : Ptr = first_of_or ys h in
        let out : a ∉ g ∷ q g =
          foreign g a hg ne (ground (arith, last_of_cases h xs, has-append a xs (x ∷ ys))) in
        let out' : b ∉ g ∷ q g =
          foreign g b hg ne (ground (arith, first_of_cases ys h, has-append b xs (x ∷ ys))) in
        record {
          chain =
              subst (λ k. Chain k g (q g) g) (sym (list_remove_-unlinked l h x xs ys own-Ring))
                (Chain-unlinked_frame l g (q g) g a b (r.ring g hg).chain out (ground arith)
                  (ground arith));
          distinct = (r.ring g hg).distinct;
        }

    remove-Ring : (g : Ptr) → IsHead n m g → Ring (list_remove_ x l) g (update q h (xs ++ ys) g)
    remove-Ring g hg = elim (Bool-cases (h == g)) [
      | inl e ↦ rw e (
          subst (λ k. Ring (list_remove_ x l) k (xs ++ ys)) ((==_iff h g).0 e)
            (list_remove_-Ring l h x xs ys own-Ring))
      | inr e ↦ rw e (remove_other g hg (ground arith))
    ]

    -- `list_remove_` of a node takes it out of the list that holds it, and keeps the others.
    pub remove-Rings : Rings n m (list_remove_ x l) (update q h (xs ++ ys))
    remove-Rings =
        let gone = λ (a : Ptr). has-remove a xs x ys own-Ring.distinct.1 in
        let stays = λ (a : Ptr). ap (has a) at in
        record {
          ring = remove-Ring;
          items = λ g a hg. ground (arith, gone a, stays a, r.items h a head, r.items g a hg);
          apart = λ g g' a hg hg'. ground (
            arith,
            gone a,
            stays a,
            r.apart g g' a hg hg',
            r.apart h g' a head hg',
            r.apart g h a hg head,
          );
        }
