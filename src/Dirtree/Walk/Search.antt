-- ===== src/Dirtree/Walk/Search.antt =====
-- Lab2/202110421_assign2/dirtree.c: what `subtree_has_match` finds.
use system_programming.Base.{
  ℕ, zero, suc, ◌+◌, ◌≤◌, ◌<◌, ◌≡◌, refl, sym, ◌∙◌, ap, Bool, true, false, ◌&&◌, ◌||◌, some, List,
  [], ◌∷◌, ltb, if◌then◌else◌, inl, inr, Bool-cases, arith,
}
use system_programming.Dirtree.Sys.{
  Sys, Errno, eacces, enoent, another, Dirent, Listing, Opendir, open_failed, opened, Lstat,
  stat_failed, found,
}
use system_programming.Dirtree.Entries.{make_child_path}
use system_programming.Dirtree.Entries.Reading.{ends_badly}
use system_programming.Dirtree.Summary.{Stat}
use system_programming.Dirtree.Match.{entry_matches_filter}
use system_programming.Dirtree.Walk.{
  perror_readdir, World, Ending, back, then_do, complain, is_directory, max_path_len, with_entries,
  search_entries, subtree_has_match,
}
use system_programming.Dirtree.Walk.Forest.{
  Forest, sorted_entries, forest_of, unopened, forest, has_match, forest-unopened, forest-opened,
  with_entries-sorted, forest-failed, forest-node, forest-leaf,
}

-- Back with an answer, and nothing printed or counted.
pub record Answers (o : Ending Bool) (w : World) (answer : Bool) : Type 0 where
  pub after : World
  pub returns : o ≡ back after answer
  pub stats : after.stats ≡ w.stats
  pub out : after.out ≡ w.out

moved :
    {o o' : Ending Bool} {w : World} {a a' : Bool}
    → o ≡ o'
    → a ≡ a'
    → Answers o' w a'
    → Answers o w a
moved {w = w} p q h = record {
  after = h.after;
  returns = p ∙ h.returns ∙ ap (back h.after) (sym q);
  stats = h.stats;
  out = h.out;
}

-- The paths of these entries are not too long.
abbrev pub Short : List ℕ → List Dirent → Type 0
Short dn [] = Unit {0}
Short dn (e ∷ es) =
    ((path : List ℕ) × (make_child_path max_path_len dn e.d_name ≡ some path)) × Short dn es

abbrev pub ShortIn : Sys → List ℕ → Opendir → Type 0
ShortIn sys dn (open_failed errno) = Unit {0}
ShortIn sys dn (opened dir) = Short dn (sorted_entries sys dir)

module _ (sys : Sys) (filtering : Bool) (pattern : List ℕ) (max_depth : ℕ) (matches : List ℕ → Bool)
    (decides : (name : List ℕ)
      → entry_matches_filter name filtering pattern ≡ some (matches name)) where
  module _ (recurse : List ℕ → World → Ending Bool) (below : List ℕ → Forest) (dn : List ℕ)
      (depth : ℕ)
      (recurse-Answers : (path : List ℕ) (w : World)
        → depth < max_depth
        → Answers (recurse path w) w (has_match matches (below path))) where
    abbrev search : List Dirent → World → Ending Bool
    search = search_entries sys filtering pattern max_depth recurse dn depth

    abbrev onward : List Dirent → Forest
    onward = forest_of sys max_depth below dn depth

    found-here : {w : World} {answer : Bool} → answer ≡ true → Answers (back w true) w answer
    found-here {w = w} e = record {
      after = w;
      returns = ap (back w) (sym e);
      stats = refl;
      out = refl;
    }

    -- The search below a directory, and then behind it.
    search-below :
        (es : List Dirent) (w : World) (path : List ℕ)
        → depth < max_depth
        → ((w' : World) → Answers (search es w') w' (has_match matches (onward es)))
        → Answers
            (then_do
              (recurse path w)
              λ w' below. elim below [ true ↦ back w' true | false ↦ search es w' ])
            w
            (has_match matches (below path) || has_match matches (onward es))
    search-below es w path deeper later =
        let a = recurse-Answers path w deeper in
        let b = later a.after in
        elim (Bool-cases (has_match matches (below path))) [
          | inl e ↦ record {
            after = a.after;
            returns = rw (a.returns, e) refl;
            stats = a.stats;
            out = a.out;
          }
          | inr e ↦ record {
            after = b.after;
            returns = rw (a.returns, e) b.returns;
            stats = b.stats ∙ a.stats;
            out = b.out ∙ a.out;
          }
        ]

    -- The loop by its first entry.
    module _ (e : Dirent) (es : List Dirent) (w : World) (path : List ℕ)
        (p : make_child_path max_path_len dn e.d_name ≡ some path) where
      search-failed :
          (errno : Errno) → sys.lstat path ≡ stat_failed errno → search (e ∷ es) w ≡ search es w
      unfolding search_entries
      search-failed errno l = rw (search_entries, p, l) refl

      module _ (st : Stat) (l : sys.lstat path ≡ found st) where
        search-hit : matches e.d_name ≡ true → search (e ∷ es) w ≡ back w true
        unfolding search_entries
        search-hit m = rw (search_entries, p, l, decides e.d_name, m) refl

        search-leaf :
            matches e.d_name ≡ false
            → (is_directory st && ltb depth max_depth) ≡ false
            → search (e ∷ es) w ≡ search es w
        unfolding search_entries
        search-leaf m d = rw (search_entries, p, l, decides e.d_name, m, d) refl

        search-node :
            matches e.d_name ≡ false
            → (is_directory st && ltb depth max_depth) ≡ true
            → search (e ∷ es) w
              ≡ then_do
                  (recurse path w)
                  λ w' below. elim below [ true ↦ back w' true | false ↦ search es w' ]
        unfolding search_entries
        search-node m d = rw (search_entries, p, l, decides e.d_name, m, d) refl

    search-Answers :
        (es : List Dirent) (w : World)
        → Short dn es
        → Answers (search es w) w (has_match matches (onward es))
    unfolding search_entries forest_of has_match
    search-Answers [] w short = record { after = w; returns = refl; stats = refl; out = refl }
    search-Answers (e ∷ es) w ((path, p), short) =
        by_stat (λ w'. search-Answers es w' short) (sys.lstat path) refl
      where
        tail-of : Bool → Bool
        tail-of m = m || has_match matches (onward es)

        by_stat :
            ((w' : World) → Answers (search es w') w' (has_match matches (onward es)))
            → (s : Lstat) → sys.lstat path ≡ s
            → Answers (search (e ∷ es) w) w (has_match matches (onward (e ∷ es)))
        by_stat later (stat_failed errno) l =
            moved (search-failed e es w path p errno l)
              (ap (has_match matches)
                (forest-failed sys max_depth below dn depth e es path p errno l))
              (later w)
        by_stat later (found st) l = elim (Bool-cases (is_directory st && ltb depth max_depth)) [
          | inl d ↦
              let f =
                ap (has_match matches)
                  (forest-node sys max_depth below dn depth e es path p st l d) in
              elim (Bool-cases (matches e.d_name)) [
                | inl m ↦ moved (search-hit e es w path p st l m) (f ∙ rw m refl) (found-here refl)
                | inr m ↦
                    moved (search-node e es w path p st l m d) (f ∙ rw m refl)
                      (search-below es w path (ground (arith, d)) later)
              ]
          | inr d ↦
              let f =
                ap (has_match matches)
                  (forest-leaf sys max_depth below dn depth e es path p st l d) in
              elim (Bool-cases (matches e.d_name)) [
                | inl m ↦ moved (search-hit e es w path p st l m) (f ∙ rw m refl) (found-here refl)
                | inr m ↦ moved (search-leaf e es w path p st l m d) (f ∙ rw m refl) (later w)
              ]
        ]

  module _ (fuel : ℕ) (dn : List ℕ) (depth : ℕ) (w : World) where
    abbrev subtree : Ending Bool
    subtree = subtree_has_match sys filtering pattern max_depth (suc fuel) dn depth w

    subtree-failed : (errno : Errno) → sys.opendir dn ≡ open_failed errno → subtree ≡ back w false
    unfolding subtree_has_match
    subtree-failed errno o = rw (subtree_has_match, o) refl

    subtree-opened :
        (dir : Listing)
        → sys.opendir dn ≡ opened dir
        → subtree
          ≡ with_entries sys dir w (
              search_entries sys filtering pattern max_depth
                (λ path. subtree_has_match sys filtering pattern max_depth fuel path (depth + 1))
                dn
                depth)
    unfolding subtree_has_match
    subtree-opened dir o = rw (subtree_has_match, o) refl

  has_match-unopened : (errno : Errno) → has_match matches (unopened errno) ≡ false
  unfolding has_match
  has_match-unopened eacces = refl
  has_match-unopened enoent = refl
  has_match-unopened another = refl

  reported-Answers :
      (b : Bool) (w : World) {o : Ending Bool} {a : Bool}
      → Answers o (if b then complain w perror_readdir else w) a
      → Answers o w a
  reported-Answers true w h = record {
    after = h.after;
    returns = h.returns;
    stats = h.stats;
    out = h.out;
  }
  reported-Answers false w h = h

  module _ (room : (n : ℕ) → sys.realloc n ≡ true)
      (short : (dn : List ℕ) → ShortIn sys dn (sys.opendir dn)) where
    pub subtree-Answers :
        (fuel : ℕ) (dn : List ℕ) (depth : ℕ) (w : World)
        → depth ≤ max_depth
        → max_depth < fuel + depth
        → Answers
            (subtree_has_match sys filtering pattern max_depth fuel dn depth w)
            w
            (has_match matches (forest sys max_depth fuel dn depth))
    subtree-Answers zero dn depth w low enough = absurd (omega (arith, low, enough))
    subtree-Answers (suc fuel) dn depth w low enough =
        by_opening
          (λ path w' deeper.
            subtree-Answers fuel path (depth + 1) w' (omega (arith, deeper))
              (omega (arith, enough)))
          (sys.opendir dn) refl (short dn)
      where
        by_opening :
            ((path : List ℕ) (w' : World)
              → depth < max_depth
              → Answers
                  (subtree_has_match sys filtering pattern max_depth fuel path (depth + 1) w')
                  w'
                  (has_match matches (forest sys max_depth fuel path (depth + 1))))
            → (r : Opendir) → sys.opendir dn ≡ r
            → ShortIn sys dn r
            → Answers
                (subtree fuel dn depth w)
                w
                (has_match matches (forest sys max_depth (suc fuel) dn depth))
        by_opening deeper (open_failed errno) o k =
            moved (subtree-failed fuel dn depth w errno o)
              (ap (has_match matches) (forest-unopened sys max_depth fuel dn depth errno o)
                ∙ has_match-unopened errno)
              (record { after = w; returns = refl; stats = refl; out = refl })
        by_opening deeper (opened dir) o k =
            moved (subtree-opened fuel dn depth w dir o ∙ with_entries-sorted sys room dir w _)
              (ap (has_match matches) (forest-opened sys max_depth fuel dn depth dir o))
              (reported-Answers (ends_badly dir) w
                (search-Answers _ _ dn depth deeper (sorted_entries sys dir) _ k))
