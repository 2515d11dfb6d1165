-- ===== src/RingBuffer/Refine.antt =====
-- A valid buffer of include/lib/ringbuffer.h behaves as the queue of the characters that it holds.
use mathlib.Core.Option
use Prim.Native.Nat.{bit_and}
use native.Mathlib.Nat.{mod-add-mod, pow-le-pow_right, add-mod_right, mod-lt, add-zero}
use mathlib.Core.Path.{ap₂}
use betriebssysteme.Common.{
  Bool-cases, inl, inr, ==_iff, ℕ, zero, suc, ◌+◌, ◌-◌, ◌%◌, ◌^◌, ◌≤◌, ◌<◌, ◌≡◌, arith, false, some,
  List, [], ◌∷◌, ◌++◌, length, length-set, get_or, set, refl, ap, sym, ◌∙◌, get_or-set_self,
  get_or-set_ne, ◌==◌,
}
use betriebssysteme.Common.Bits.{bit_and_mask, pow_pos, wrap-mod_low, add-mod-ne}
use betriebssysteme.RingBuffer.Fifo
use betriebssysteme.Common.Words.{add_u32, sub_u32}
use betriebssysteme.RingBuffer.{RingBuff, buff_is_empty, buff_is_full, buff_putc, buff_getc}
use betriebssysteme.RingBuffer.Inv.{IsValid, level}

-- The `n` characters from position `t` on, in a buffer of `p`.
abbrev pub window : List ℕ → ℕ → ℕ → ℕ → List ℕ
window buf p t zero = []
window buf p t (suc n) = get_or buf (t % p) 0 ∷ window buf p (t + 1) n

abbrev pub contents : RingBuff → List ℕ
contents b = window b.buffer b.size b.tail (level b)

pub length-window : (buf : List ℕ) (p t n : ℕ) → length (window buf p t n) ≡ n
length-window buf p t zero = refl
length-window buf p t (suc n) = ap suc (length-window buf p (t + 1) n)

window_cong : (buf : List ℕ) (p t u n : ℕ) → t % p ≡ u % p → window buf p t n ≡ window buf p u n
window_cong buf p t u zero e = refl
window_cong buf p t u (suc n) e = ap₂ ◌∷◌ (ap (λ i. get_or buf i 0) e) (
    window_cong buf p (t + 1) (u + 1) n
      (sym (mod-add-mod t p 1) ∙ ap (λ i. (i + 1) % p) e ∙ mod-add-mod u p 1))

-- A write just past the window extends it, and leaves its characters.
window-set :
    (buf : List ℕ) (p t n i c : ℕ)
    → length buf ≡ p
    → n < p
    → i ≡ (t + n) % p
    → window (set buf i c) p t (suc n) ≡ window buf p t n ++ c ∷ []
window-set buf p t zero i c len lt e =
    let at : i ≡ t % p = rw add-zero at e in
    ap (λ x. x ∷ [])
      (rw at (get_or-set_self buf (t % p) c 0 (omega (arith, mod-lt t {m = p} (omega arith)))))
window-set buf p t (suc n) i c len lt e =
    ap₂ ◌∷◌ (get_or-set_ne buf c 0 (rw e (add-mod-ne t (suc n) p (omega arith) lt)))
      (window-set buf p (t + 1) n i c len (omega arith) (e ∙ ap (λ k. k % p) (omega arith)))

module _ (k : ℕ) (b : RingBuff) (v : IsValid k b) where
  -- The slot of a position is its remainder.
  slot : (x : ℕ) → bit_and x b.mask ≡ x % 2 ^ k
  slot x = rw v.mask_low (bit_and_mask x k)

  head_slot : b.head % 2 ^ k ≡ (b.tail + level b) % 2 ^ k
  head_slot =
      sym (wrap-mod_low b.head k (omega (arith, v.small)))
      ∙ ap (λ x. x % 2 ^ k) around
      ∙ wrap-mod_low (b.tail + level b) k (omega (arith, v.small))
    where
      around : b.head % 2 ^ 32 ≡ (b.tail + level b) % 2 ^ 32
      around = omega (arith, v.head_in, v.tail_in)

  -- The test for a full buffer: all its characters wait.
  full-level : buff_is_full b ≡ (level b == 2 ^ k)
  unfolding buff_is_full
  full-level =
      rw (slot b.tail, slot b.head, head_slot)
        (ground (
          arith,
          pow_pos k,
          add-mod-ne b.tail (level b) (2 ^ k),
          add-mod_right b.tail (2 ^ k),
          ap (λ n. (b.tail + n) % 2 ^ k),
          v.level_in,
          v.head_in,
          v.tail_in,
        ))

  empty-level : buff_is_empty b ≡ (level b == 0)
  unfolding buff_is_empty
  empty-level = ground (arith, v.head_in, v.tail_in)

  putc_room :
      (c : ℕ)
      → (level b == 2 ^ k) ≡ false
      → let b' : RingBuff = record b {
        buffer = set b.buffer (bit_and b.head b.mask) c;
        head = add_u32 b.head 1;
      } in
        (contents b' ≡ contents b ++ c ∷ []) × IsValid k b'
  putc_room c room =
      let fits : 2 ^ k ≤ 2 ^ 31 = pow-le-pow_right {n = 2} (omega arith) v.small in
      let more : sub_u32 (add_u32 b.head 1) b.tail ≡ suc (level b) =
        omega (arith, v.level_in, v.head_in, v.tail_in) in
      let stored : b.mask ≡ 2 ^ k - 1 = v.mask_low in
      (
        ap (window (set b.buffer (bit_and b.head b.mask) c) b.size b.tail) more
            ∙ window-set b.buffer b.size b.tail (level b) (bit_and b.head b.mask) c
                (v.storage ∙ sym v.size_pow) (ground (arith, v.size_pow, v.level_in))
                (slot b.head ∙ head_slot ∙ ap (λ p. (b.tail + level b) % p) (sym v.size_pow)),
        record {
          small = v.small;
          size_pow = v.size_pow;
          mask_low = v.mask_low;
          storage = length-set b.buffer (bit_and b.head b.mask) c ∙ v.storage;
          head_in = omega arith;
          tail_in = v.tail_in;
          level_in = ground (arith, v.level_in, more);
        },
      )

  -- `buff_putc` drops the character exactly if all 2 ^ k places are taken, and else appends it.
  pub putc_refines :
      (c : ℕ)
      → let (dropped, b') = buff_putc b c in
        ((dropped, contents b') ≡ Fifo.push (2 ^ k) (contents b) c) × IsValid k b'
  unfolding buff_putc Fifo.push
  putc_refines c = elim (Bool-cases (level b == 2 ^ k)) [
    | inl full ↦ rw (full-level, length-window b.buffer b.size b.tail (level b), full) (refl, v)
    | inr room ↦
        rw (full-level, length-window b.buffer b.size b.tail (level b), room)
          (ap (λ q. (false, q)) (putc_room c room).0, (putc_room c room).1)
  ]

  getc_more :
      (level b == 0) ≡ false
      → let b' : RingBuff = record b { tail = add_u32 b.tail 1 } in
        (contents b ≡ get_or b.buffer (bit_and b.tail b.mask) 0 ∷ contents b') × IsValid k b'
  getc_more some_left =
      let b' : RingBuff = record b { tail = add_u32 b.tail 1 } in
      let less : level b ≡ suc (level b') = ground (arith, v.head_in, v.tail_in) in
      (
        ap (window b.buffer b.size b.tail) less
            ∙ ap₂ (λ i q. get_or b.buffer i 0 ∷ q)
                (ap (λ p. b.tail % p) v.size_pow ∙ sym (slot b.tail))
                (window_cong b.buffer b.size (b.tail + 1) (add_u32 b.tail 1) (level b')
                  (rw v.size_pow (sym (wrap-mod_low (b.tail + 1) k (omega (arith, v.small)))))),
        record {
          small = v.small;
          size_pow = v.size_pow;
          mask_low = v.mask_low;
          storage = v.storage;
          head_in = v.head_in;
          tail_in = omega arith;
          level_in = omega (arith, v.level_in, less);
        },
      )

  -- `buff_getc` takes out the oldest character, and spins on an empty buffer.
  pub getc_refines : Option.map (λ (c, b'). (c, contents b')) (buff_getc b) ≡ Fifo.pop (contents b)
  unfolding buff_getc Fifo.pop
  getc_refines = elim (Bool-cases (level b == 0)) [
    | inl e ↦ rw (empty-level, e, ap (window b.buffer b.size b.tail) ((==_iff (level b) 0).0 e))
    | inr e ↦ rw (empty-level, e, (getc_more e).0)
  ]

  -- The ring buffer is a bounded queue of 2 ^ k places: `buff_putc` drops the character exactly if all of
  -- them are taken, and else appends it, which keeps the invariant; `buff_getc` takes out the oldest
  -- character, and spins on an empty buffer.
  pub ring_refines :
      (c : ℕ)
      → let (dropped, b') = buff_putc b c in
        ((dropped, contents b') ≡ Fifo.push (2 ^ k) (contents b) c)
        × IsValid k b'
        × (Option.map (λ (d, b''). (d, contents b'')) (buff_getc b) ≡ Fifo.pop (contents b))
  ring_refines c = let (pushed, valid) = putc_refines c in (pushed, valid, getc_refines)

  -- `buff_getc` keeps the invariant.
  pub getc-IsValid : (c : ℕ) (b' : RingBuff) → buff_getc b ≡ some (c, b') → IsValid k b'
  unfolding buff_getc
  getc-IsValid c b' e = ground (arith, empty-level, getc_more)
