-- ===== src/LinkedList/Chain.antt =====
-- What a list of include/lib/list.h stands for: the nodes on the way from its head back to it.
use betriebssysteme.Common.{
  ◌≡◌, ◌≢◌, refl, ◌⊎◌, inl, List, [], ◌∷◌, ◌++◌, arith, ◌∈◌, ◌∉◌, Distinct,
}
use betriebssysteme.LinkedList.{Ptr, Links, set_next, set_prev}

-- From `p`, `next` leads through `xs` to `q`, and `prev` leads back the same way.
abbrev pub Chain : Links → Ptr → List Ptr → Ptr → Type 0
Chain l p [] q = (l.next p ≡ q) × (l.prev q ≡ p)
Chain l p (x ∷ xs) q = (l.next p ≡ x) × (l.prev x ≡ p) × Chain l x xs q

-- The list with head `h` holds the nodes `xs`, in order, each of them once.
pub record Ring (l : Links) (h : Ptr) (xs : List Ptr) : Type 0 where
  pub chain : Chain l h xs h
  pub distinct : Distinct (h ∷ xs)

-- The last node of `p ∷ xs`, and the first of `xs` and then `q`.
abbrev pub last_of : Ptr → List Ptr → Ptr
last_of p [] = p
last_of p (x ∷ xs) = last_of x xs

abbrev pub first_of_or : List Ptr → Ptr → Ptr
first_of_or [] q = q
first_of_or (x ∷ xs) q = x

pub last_of_cases : (p : Ptr) (xs : List Ptr) → (last_of p xs ≡ p) ⊎ (last_of p xs ∈ xs)
last_of_cases p [] = inl refl
last_of_cases p (x ∷ xs) = ground (arith, last_of_cases x xs)

pub first_of_cases : (xs : List Ptr) (q : Ptr) → (first_of_or xs q ≡ q) ⊎ (first_of_or xs q ∈ xs)
first_of_cases [] q = inl refl
first_of_cases (x ∷ xs) q = ground arith

pub last_of-ne : (a p : Ptr) (xs : List Ptr) → a ∉ p ∷ xs → a ≢ last_of p xs
last_of-ne a p xs h = ground (arith, last_of_cases p xs)

pub next-Chain :
    (l : Links) (p : Ptr) (xs : List Ptr) (q : Ptr) → Chain l p xs q → l.next p ≡ first_of_or xs q
next-Chain l p [] q c = c.0
next-Chain l p (x ∷ xs) q c = c.0

pub prev-Chain :
    (l : Links) (p : Ptr) (xs : List Ptr) (q : Ptr) → Chain l p xs q → l.prev q ≡ last_of p xs
prev-Chain l p [] q c = c.1
prev-Chain l p (x ∷ xs) q c = prev-Chain l x xs q c.2

pub next_last-Chain :
    (l : Links) (p : Ptr) (xs : List Ptr) (q : Ptr) → Chain l p xs q → l.next (last_of p xs) ≡ q
next_last-Chain l p [] q c = c.0
next_last-Chain l p (x ∷ xs) q c = next_last-Chain l x xs q c.2

pub Chain-split :
    (l : Links) (p : Ptr) (xs : List Ptr) (y : Ptr) (ys : List Ptr) (q : Ptr)
    → Chain l p (xs ++ y ∷ ys) q
    → Chain l p xs y × Chain l y ys q
Chain-split l p [] y ys q c = ((c.0, c.1), c.2)
Chain-split l p (x ∷ xs) y ys q c =
    let rest = Chain-split l x xs y ys q c.2 in ((c.0, c.1, rest.0), rest.1)

-- A write to a `next` field off the chain keeps it, and so for `prev`.
pub Chain-set_next :
    (l : Links) (p : Ptr) (xs : List Ptr) (q a v : Ptr)
    → Chain l p xs q
    → a ∉ p ∷ xs
    → Chain (set_next a v l) p xs q
Chain-set_next l p [] q a v c h = ground arith
Chain-set_next l p (x ∷ xs) q a v c h =
    (ground arith, c.1, Chain-set_next l x xs q a v c.2 (ground arith))

pub Chain-set_prev :
    (l : Links) (p : Ptr) (xs : List Ptr) (q a v : Ptr)
    → Chain l p xs q
    → a ∉ xs
    → a ≢ q
    → Chain (set_prev a v l) p xs q
Chain-set_prev l p [] q a v c h ne = ground arith
Chain-set_prev l p (x ∷ xs) q a v c h ne =
    (c.0, ground arith, Chain-set_prev l x xs q a v c.2 (ground arith) ne)
