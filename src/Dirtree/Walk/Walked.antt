-- ===== src/Dirtree/Walk/Walked.antt =====
-- Lab2/202110421_assign2/dirtree.c: a part of the walk by what it counts and prints.
use system_programming.Base.{
  ℕ, ◌≡◌, refl, sym, ◌∙◌, ap, Bool, true, false, List, [], ◌∷◌, ◌++◌, append_assoc, append-nil,
  if◌then◌else◌,
}
use system_programming.Base.Int.{ℤ, pos}
use system_programming.Dirtree.Sys.{Sys, Errno, eacces, enoent, another}
use system_programming.Dirtree.Summary.{
  Stat, Summary, get_type_char, summary_add_entry, add_entries,
}
use system_programming.Dirtree.Print.{print_missing_path_line, print_entry_line, name_column}
use system_programming.Dirtree.Walk.{
  perror_readdir, World, Ending, back, then_do, complain, show_entry, cannot_open,
}
use system_programming.Dirtree.Walk.Forest.{Forest, end, missing, unopened}

-- Back, with these entries counted and these bytes printed.
pub record Walked (o : Ending ℤ) (w : World) (sts : List Stat) (bytes : List ℕ) : Type 0 where
  pub after : World
  pub result : ℤ
  pub returns : o ≡ back after result
  pub stats : after.stats ≡ add_entries w.stats sts
  pub out : after.out ≡ w.out ++ bytes

pub add_entries-append :
    (stats : Summary) (sts more : List Stat)
    → add_entries stats (sts ++ more) ≡ add_entries (add_entries stats sts) more
unfolding add_entries
add_entries-append stats [] more = refl
add_entries-append stats (st ∷ sts) more =
    add_entries-append (summary_add_entry stats st (get_type_char st)) sts more

add_entries-nil : (stats : Summary) → add_entries stats [] ≡ stats
unfolding add_entries
add_entries-nil stats = refl

-- Nothing but messages, or nothing at all.
pub back-Walked : {w : World} {r : ℤ} → Walked (back w r) w [] []
back-Walked {w = w} {r = r} = record {
  after = w;
  result = r;
  returns = refl;
  stats = sym (add_entries-nil w.stats);
  out = sym (append-nil w.out);
}

pub same-Walked :
    {o o' : Ending ℤ} {w : World} {sts sts' : List Stat} {bytes bytes' : List ℕ}
    → o ≡ o'
    → sts ≡ sts'
    → bytes ≡ bytes'
    → Walked o' w sts' bytes'
    → Walked o w sts bytes
same-Walked {w = w} p q r h = record {
  after = h.after;
  result = h.result;
  returns = p ∙ h.returns;
  stats = h.stats ∙ ap (add_entries w.stats) (sym q);
  out = h.out ∙ ap (λ z. w.out ++ z) (sym r);
}

-- From a world in which some entries have been counted and some bytes printed.
pub later-Walked :
    {o : Ending ℤ} {w w₁ : World} {more : List Stat} {rest : List ℕ} (sts : List Stat)
    (bytes : List ℕ)
    → w₁.stats ≡ add_entries w.stats sts
    → w₁.out ≡ w.out ++ bytes
    → Walked o w₁ more rest
    → Walked o w (sts ++ more) (bytes ++ rest)
later-Walked {w = w} {more = more} {rest = rest} sts bytes p q h = record {
  after = h.after;
  result = h.result;
  returns = h.returns;
  stats = h.stats ∙ ap (λ s. add_entries s more) p ∙ sym (add_entries-append w.stats sts more);
  out = h.out ∙ ap (λ z. z ++ rest) q ∙ append_assoc w.out bytes rest;
}

pub then-Walked :
    {o : Ending ℤ} {w : World} {sts more : List Stat} {bytes rest : List ℕ}
    (k : World → ℤ → Ending ℤ)
    → Walked o w sts bytes
    → ((w' : World) (r : ℤ) → Walked (k w' r) w' more rest)
    → Walked (then_do o k) w (sts ++ more) (bytes ++ rest)
then-Walked {sts = sts} {bytes = bytes} k h later =
    same-Walked (ap (λ z. then_do z k) h.returns) refl refl
      (later-Walked sts bytes h.stats h.out (later h.after h.result))

-- From a world to which messages were added.
pub quiet-Walked :
    {o : Ending ℤ} {w₁ : World} {sts : List Stat} {bytes : List ℕ} (w : World)
    → w₁.stats ≡ w.stats
    → w₁.out ≡ w.out
    → Walked o w₁ sts bytes
    → Walked o w sts bytes
quiet-Walked {sts = sts} {bytes = bytes} w p q h = record {
  after = h.after;
  result = h.result;
  returns = h.returns;
  stats = h.stats ∙ ap (λ s. add_entries s sts) p;
  out = h.out ∙ ap (λ z. z ++ bytes) q;
}

-- An entry is shown, and more follows.
pub show-Walked :
    {o : Ending ℤ} {more : List Stat} {rest : List ℕ} (sys : Sys) (filtering : Bool)
    (pattern : List ℕ) (max_depth : ℕ) (name : List ℕ) (depth : ℕ) (st : Stat) (w : World)
    → Walked o (show_entry sys filtering pattern max_depth name depth st w) more rest
    → Walked o w (st ∷ more) (print_entry_line sys (name_column name depth) st ++ rest)
unfolding add_entries show_entry
show-Walked sys filtering pattern max_depth name depth st w h =
    later-Walked (st ∷ []) (print_entry_line sys (name_column name depth) st) refl refl h

-- From a world to which the message of `readdir` was added, or not.
pub reported-Walked :
    {o : Ending ℤ} {sts : List Stat} {bytes : List ℕ} (b : Bool) (w : World)
    → Walked o (if b then complain w perror_readdir else w) sts bytes
    → Walked o w sts bytes
reported-Walked true w h = quiet-Walked w refl refl h
reported-Walked false w h = h

-- A directory that is not opened: `lines` prints at most the line of a missing path.
pub cannot_open-Walked :
    (errno : Errno) (depth : ℕ) (w : World) (sts : Forest → List Stat) (lines : Forest → List ℕ)
    → sts end ≡ []
    → sts missing ≡ []
    → lines end ≡ []
    → lines missing ≡ print_missing_path_line
    → Walked
        (back (cannot_open errno depth w) (pos 0))
        w
        (sts (unopened errno))
        (lines (unopened errno))
cannot_open-Walked eacces depth w sts lines s s' l l' =
    same-Walked refl s l (quiet-Walked w refl refl back-Walked)
cannot_open-Walked enoent depth w sts lines s s' l l' =
    same-Walked refl s' (l' ∙ sym (append-nil print_missing_path_line))
      (later-Walked [] print_missing_path_line (sym (add_entries-nil w.stats)) refl back-Walked)
cannot_open-Walked another depth w sts lines s s' l l' = same-Walked refl s l back-Walked
