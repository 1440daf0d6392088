-- ===== src/HeapManager/Bins/Taken.antt =====
-- Lab3/src/heapmgr2.c: the block that a call hands out, in the memory that the call leaves.
use mathlib.Core.Path.{subst}
use system_programming.Base.{
  ℕ, ◌+◌, ◌-◌, ◌≤◌, ◌<◌, ◌≡◌, ◌⊎◌, inl, inr, refl, sym, ◌∙◌, ap, Bool, true, false, ◌&&◌, Option,
  none, some, ◌==◌, ltb, leb, Bool-cases, ==_refl, ==_ne, Option-cases, arith,
}
use system_programming.HeapManager.{Heap}
use system_programming.HeapManager.Chunk.{
  chunk_free, chunk_used, chunk_set_status, chunk_set_next_free, chunk_set_prev_free,
  chunk_set_span_units, chunk_get_adjacent, chunk_get_prev_adjacent, chunk_get_prev_free,
  chunk_get_next_free,
}
use system_programming.HeapManager.Validity.{chunk_is_valid, ptr_eq}
use system_programming.HeapManager.FreeList.{set_prev_if, split_for_alloc}
use system_programming.HeapManager.Bins.{
  BinHeap, get_bin_index, bypass_in_bin, bin_detach, cover, coalesce_two, absorb_next, absorb_prev,
  link_in_bin, bin_push_front, take_from_bin,
}

-- The words of a unit that are not links.
abbrev words : Heap → ℕ → ℕ × ℕ
words h a = (h.word0 a, h.word1 a)

bypass-words :
    (b : BinHeap) (c : ℕ) (p n : Option ℕ) (a : ℕ)
    → words (bypass_in_bin b c p n).heap a ≡ words b.heap a
unfolding bypass_in_bin
bypass-words b c none none a = refl
bypass-words b c none (some n) a = refl
bypass-words b c (some p) none a = refl
bypass-words b c (some p) (some n) a = refl

pub bin_detach-words : (b : BinHeap) (c a : ℕ) → words (bin_detach b c).heap a ≡ words b.heap a
unfolding bin_detach
bin_detach-words b c a =
    bypass-words b c (chunk_get_prev_free b.heap c) (chunk_get_next_free b.heap c) a

set_prev_if-words : (h : Heap) (c p : Option ℕ) (a : ℕ) → words (set_prev_if h c p) a ≡ words h a
set_prev_if-words h none p a = refl
set_prev_if-words h (some c) p a = refl

link_in_bin-words : (b : BinHeap) (c a : ℕ) → words (link_in_bin b c).heap a ≡ words b.heap a
unfolding link_in_bin
link_in_bin-words b c a =
    let i = get_bin_index (b.heap.word1 c) in
    set_prev_if-words (chunk_set_next_free (chunk_set_prev_free b.heap c none) c (b.bins i))
      (b.bins i) (some c) a

-- A block that is used is not absorbed.
absorb_next-used :
    (b : BinHeap) (c : ℕ)
    → b.heap.word0 (c + b.heap.word1 c) ≡ chunk_used
    → absorb_next b c ≡ (b, c)
unfolding absorb_next
absorb_next-used b c used = elim (Bool-cases (leb b.heap.hi (c + b.heap.word1 c))) [
  | inl e ↦ rw (absorb_next, e) refl
  | inr e ↦ rw (absorb_next, e, used) refl
]

-- The units from the end of the second block on are as before.
cover-words :
    (h : Heap) (p c a : ℕ)
    → p + h.word1 p ≡ c
    → 0 < h.word1 c
    → c + h.word1 c ≤ a
    → words (cover h p c) a ≡ words h a
unfolding cover chunk_set_span_units
cover-words h p c a meets some_units behind =
    rw
      (
        ==_refl p,
        ==_ne (p + (h.word1 p + h.word1 c) - 1) a (λ e. omega (arith, meets, e)),
        ==_ne p a (λ e. omega (arith, meets, e)),
      )
      refl

coalesce_two-words :
    (h : Heap) (p c a : ℕ)
    → p + h.word1 p ≡ c
    → 0 < h.word1 c
    → c + h.word1 c ≤ a
    → words (coalesce_two h p c).0 a ≡ words h a
unfolding coalesce_two
coalesce_two-words h p c a meets some_units behind =
    let ordered : ltb c p ≡ false = ground (arith, meets) in
    rw ordered (cover-words h p c a meets some_units behind)

-- A block in front that is free takes `c` in, and the units behind `c` are as before.
module _ (b : BinHeap) (c : ℕ) where
  abbrev joins : ℕ → Bool
  joins p =
      chunk_is_valid b.heap p b.heap.lo b.heap.hi
      && ptr_eq (chunk_get_adjacent b.heap p b.heap.hi) c
      && (b.heap.word0 p == chunk_free)

  joins-meets : (p : ℕ) → joins p ≡ true → p + b.heap.word1 p ≡ c
  joins-meets p e = elim (Bool-cases (leb b.heap.hi (p + b.heap.word1 p))) [
    | inl past ↦ absurd (ground (arith, rw past at e))
    | inr inside ↦ ground (arith, rw inside at e)
  ]

  joined-words :
      (p a : ℕ)
      → p + b.heap.word1 p ≡ c
      → 0 < b.heap.word1 c
      → c + b.heap.word1 c ≤ a
      → words (coalesce_two (bin_detach b p).heap p c).0 a ≡ words b.heap a
  joined-words p a meets some_units behind =
      let span = λ (x : ℕ). ap (λ (w : ℕ × ℕ). w.1) (bin_detach-words b p x) in
      coalesce_two-words (bin_detach b p).heap p c a (rw (span p) meets) (rw (span c) some_units)
        (rw (span c) behind)
      ∙ bin_detach-words b p a

  absorb_prev-words :
      (a : ℕ)
      → 0 < b.heap.word1 c
      → c + b.heap.word1 c ≤ a
      → words (absorb_prev b c).0.heap a ≡ words b.heap a
  unfolding absorb_prev bin_detach
  absorb_prev-words a some_units behind =
      elim (Option-cases (chunk_get_prev_adjacent b.heap c b.heap.lo)) [
        | inl e ↦ rw (absorb_prev, e) refl
        | inr (p, e) ↦ elim (Bool-cases (joins p)) [
          | inl j ↦ rw (absorb_prev, e, j) (joined-words p a (joins-meets p j) some_units behind)
          | inr j ↦ rw (absorb_prev, e, j) refl
        ]
      ]

-- The units behind a block whose neighbour is used are as before.
bin_push_front-words :
    (b : BinHeap) (c a : ℕ)
    → a ≡ c + b.heap.word1 c
    → 0 < b.heap.word1 c
    → b.heap.word0 a ≡ chunk_used
    → words (bin_push_front b c).heap a ≡ words b.heap a
unfolding bin_push_front
bin_push_front-words b c a at_a some_units used =
    let h =
      chunk_set_next_free (chunk_set_prev_free (chunk_set_status b.heap c chunk_free) c none) c
        none in
    let b' : BinHeap = record b { heap = h } in
    let other : (c == a) ≡ false = ==_ne c a (λ e. omega (arith, at_a, some_units, e)) in
    let used' : h.word0 (c + b.heap.word1 c) ≡ chunk_used = rw (← at_a, other) used in
    ap
      (λ (r : BinHeap × ℕ).
        words (link_in_bin (absorb_prev r.0 r.1).0 (absorb_prev r.0 r.1).1).heap a)
      (absorb_next-used b' c used')
    ∙ link_in_bin-words (absorb_prev b' c).0 (absorb_prev b' c).1 a
    ∙ absorb_prev-words b' c a some_units (omega (arith, at_a))
    ∙ rw other refl

-- `a` is a used block at the end of the block `c` of the heap before, with the units that were asked for, and
-- no more unless all of `c` is taken, with at most one unit too many.
pub record Handed (b : BinHeap) (need_units c : ℕ) (b' : BinHeap) (a : ℕ) : Type 0 where
  pub used : b'.heap.word0 a ≡ 1
  pub inside : c ≤ a
  pub same_end : a + b'.heap.word1 a ≡ c + b.heap.word1 c
  pub cut :
      (b'.heap.word1 a ≡ need_units + 2)
      ⊎ ((a ≡ c) × (need_units + 2 ≤ b'.heap.word1 a) × (b'.heap.word1 a < need_units + 4))

record Halves (h : Heap) (c need_units : ℕ) : Type 0 where
  front : (split_for_alloc h c need_units).0.word1 c ≡ h.word1 c - (2 + need_units)
  place : (split_for_alloc h c need_units).1 ≡ c + (h.word1 c - (2 + need_units))
  used : (split_for_alloc h c need_units).0.word0 (c + (h.word1 c - (2 + need_units))) ≡ chunk_used
  back :
      (split_for_alloc h c need_units).0.word1 (c + (h.word1 c - (2 + need_units))) ≡ 2 + need_units

split_for_alloc-Halves :
    (h : Heap) (c need_units : ℕ) → 2 + need_units + 2 ≤ h.word1 c → Halves h c need_units
unfolding split_for_alloc chunk_set_span_units
split_for_alloc-Halves h c need_units room =
    let remain = h.word1 c - (2 + need_units) in
    let alloc = c + remain in
    let self = ==_refl c in
    let other : (alloc == c) ≡ false = ==_ne alloc c (λ e. omega (arith, room, e)) in
    record {
      front = rw (self, other) refl;
      place = rw self refl;
      used = rw (self, ==_refl alloc) refl;
      back = rw (self, ==_refl alloc) refl;
    }

-- What `take_from_bin` gives, in the two cases.
module _ (b : BinHeap) (c need_units : ℕ) where
  abbrev Given : BinHeap × ℕ → Type 0
  Given r = (a : ℕ) × (r.1 ≡ a + 1) × Handed b need_units c r.0 a

  span-detached : (x : ℕ) → (bin_detach b c).heap.word1 x ≡ b.heap.word1 x
  span-detached x = ap (λ (w : ℕ × ℕ). w.1) (bin_detach-words b c x)

  take-cut :
      leb (2 + need_units + 2) ((bin_detach b c).heap.word1 c) ≡ true
      → take_from_bin b c need_units ≡ (
        bin_push_front
            (record (bin_detach b c) {
              heap = (split_for_alloc (bin_detach b c).heap c need_units).0;
            })
            c,
        (split_for_alloc (bin_detach b c).heap c need_units).1 + 1,
      )
  unfolding take_from_bin bin_detach
  take-cut wide = rw (take_from_bin, wide) refl

  take-whole :
      leb (2 + need_units + 2) ((bin_detach b c).heap.word1 c) ≡ false
      → take_from_bin b c need_units ≡ (
        record (bin_detach b c) { heap = chunk_set_status (bin_detach b c).heap c chunk_used },
        c + 1,
      )
  unfolding take_from_bin bin_detach
  take-whole full = rw (take_from_bin, full) refl

  cut-Given : 2 + need_units + 2 ≤ b.heap.word1 c → Given (take_from_bin b c need_units)
  cut-Given room =
      let h = (bin_detach b c).heap in
      let span = span-detached c in
      let s = split_for_alloc-Halves h c need_units (rw span room) in
      let h' = (split_for_alloc h c need_units).0 in
      let a = c + (h.word1 c - (2 + need_units)) in
      let wide : leb (2 + need_units + 2) (h.word1 c) ≡ true = ground (arith, span) in
      let same =
        bin_push_front-words (record (bin_detach b c) { heap = h' }) c a (rw s.front refl)
          (rw s.front (omega (arith, span, room))) s.used in
      let size = ap (λ (w : ℕ × ℕ). w.1) same ∙ s.back in
      subst Given (sym (take-cut wide)) (
        a,
        ap (λ z. z + 1) s.place,
        record {
          used = ap (λ (w : ℕ × ℕ). w.0) same ∙ s.used;
          inside = omega arith;
          same_end = rw size (omega (arith, span, room));
          cut = inl (omega (arith, size));
        },
      )

  whole-Given :
      2 + need_units ≤ b.heap.word1 c
      → b.heap.word1 c < 2 + need_units + 2
      → Given (take_from_bin b c need_units)
  whole-Given fits narrow =
      let span = span-detached c in
      let full : leb (2 + need_units + 2) ((bin_detach b c).heap.word1 c) ≡ false =
        ground (arith, span) in
      subst Given (sym (take-whole full)) (
        c,
        refl,
        record {
          used = rw (==_refl c) refl;
          inside = omega arith;
          same_end = rw span refl;
          cut = inr (refl, rw span (omega (arith, fits)), rw span (omega (arith, narrow)));
        },
      )

  -- The block that is taken is handed out.
  pub take_from_bin-Handed :
      need_units + 2 ≤ b.heap.word1 c
      → (a : ℕ) × ((take_from_bin b c need_units).1 ≡ a + 1)
        × Handed b need_units c (take_from_bin b c need_units).0 a
  take_from_bin-Handed fits = elim (Bool-cases (leb (2 + need_units + 2) (b.heap.word1 c))) [
    | inl wide ↦ cut-Given (ground (arith, wide))
    | inr narrow ↦ whole-Given (omega (arith, fits)) (ground (arith, narrow))
  ]
