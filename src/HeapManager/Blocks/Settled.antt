-- ===== src/HeapManager/Blocks/Settled.antt =====
-- Lab3/src/heapmgr1.c: heaps on which no two free blocks stand side by side.
use system_programming.Base.{ℕ, ◌+◌, ◌≡◌, inl, inr, refl, ap, List, [], ◌∷◌, ◌++◌, leb, Bool-cases}
use system_programming.HeapManager.Blocks.{Block, free, used}
use system_programming.HeapManager.Blocks.Next.{meet}
use system_programming.HeapManager.Blocks.Release.{release}
use system_programming.HeapManager.Blocks.Take.{front, taken}

abbrev pub StartsUsed : List Block → Type 0
StartsUsed [] = Unit {0}
StartsUsed (used s ∷ bs) = Unit {0}
StartsUsed (free s ∷ bs) = ⊥

abbrev pub Settled : List Block → Type 0
Settled [] = Unit {0}
Settled (used s ∷ bs) = Settled bs
Settled (free s ∷ bs) = StartsUsed bs × Settled bs

pub Settled-tail : (b : Block) (bs : List Block) → Settled (b ∷ bs) → Settled bs
Settled-tail (used s) bs k = k
Settled-tail (free s) bs k = k.1

pub Settled-behind : (ds bs : List Block) → Settled (ds ++ bs) → Settled bs
Settled-behind [] bs k = k
Settled-behind (d ∷ ds) bs k = Settled-behind ds bs (Settled-tail d (ds ++ bs) k)

pub meet-alone : (s : ℕ) (bs : List Block) → StartsUsed bs → meet (free s) bs ≡ free s ∷ bs
meet-alone s [] k = refl
meet-alone s (used t ∷ bs) k = refl
meet-alone s (free t ∷ bs) k = absurd k

pub release-alone :
    (ds : List Block) (s : ℕ) (bs : List Block)
    → Settled (ds ++ free s ∷ bs)
    → release ds (free s ∷ bs) ≡ ds ++ free s ∷ bs
release-alone [] s bs k = refl
release-alone (used t ∷ []) s bs k = refl
release-alone (free t ∷ []) s bs k = absurd k.0
release-alone (d ∷ e ∷ ds) s bs k =
    ap (λ z. d ∷ z) (release-alone (e ∷ ds) s bs (Settled-tail d ((e ∷ ds) ++ free s ∷ bs) k))

meet-Settled : (s : ℕ) (bs : List Block) → Settled bs → Settled (meet (free s) bs)
meet-Settled s [] k = (tt, tt)
meet-Settled s (used t ∷ bs) k = (tt, k)
meet-Settled s (free t ∷ bs) k = k

meet-pair :
    (d : Block) (s : ℕ) (bs : List Block)
    → Settled (meet (free s) bs)
    → Settled (meet d (meet (free s) bs))
meet-pair (used t) s bs k = k
meet-pair (free t) s [] k = k
meet-pair (free t) s (used u ∷ bs) k = k
meet-pair (free t) s (free u ∷ bs) k = k

-- Where a used block is given back, no two free blocks stand side by side after it if none did before.
pub release-Settled :
    (ds : List Block) (s : ℕ) (bs : List Block)
    → Settled (ds ++ used s ∷ bs)
    → Settled (release ds (meet (free s) bs))
release-Settled [] s bs k = meet-Settled s bs k
release-Settled (d ∷ []) s bs k =
    meet-pair d s bs (meet-Settled s bs (Settled-tail d (used s ∷ bs) k))
release-Settled (used t ∷ e ∷ ds) s bs k = release-Settled (e ∷ ds) s bs k
release-Settled (free t ∷ free u ∷ ds) s bs k = absurd k.0
release-Settled (free t ∷ used u ∷ []) s bs k = (tt, release-Settled (used u ∷ []) s bs k.1)
release-Settled (free t ∷ used u ∷ e ∷ ds) s bs k = (tt, release-Settled (used u ∷ e ∷ ds) s bs k.1)

front-Settled :
    (need_units s : ℕ) (bs : List Block)
    → Settled bs
    → Settled (front need_units s ++ used (taken need_units s) ∷ bs)
front-Settled need_units s bs k = elim (Bool-cases (leb (2 + need_units + 2) s)) [
  | inl e ↦ rw e (tt, k)
  | inr e ↦ rw e k
]

pub taken-Settled :
    (ds : List Block) (need_units s : ℕ) (bs : List Block)
    → Settled (ds ++ free s ∷ bs)
    → Settled (ds ++ (front need_units s ++ used (taken need_units s) ∷ bs))
taken-Settled [] need_units s bs k = front-Settled need_units s bs k.1
taken-Settled (used t ∷ ds) need_units s bs k = taken-Settled ds need_units s bs k
taken-Settled (free t ∷ []) need_units s bs k = absurd k.0
taken-Settled (free t ∷ free u ∷ ds) need_units s bs k = absurd k.0
taken-Settled (free t ∷ used u ∷ ds) need_units s bs k =
    (tt, taken-Settled (used u ∷ ds) need_units s bs k.1)
