-- ===== src/Backend/Ends/Trees.antt =====
-- The recursion of copy_file and move_directory ends, and so does remove_file_or_directory.
use system_sw_gui_project.Prelude.{
  String, ℕ, zero, suc, ◌+◌, ◌<◌, ◌≤◌, ◌≡◌, ◌≢◌, refl, Bool, true, false, Option, none, some, List,
  [], ◌∷◌, if◌then◌else◌, Text, length, arith, All,
}
use system_sw_gui_project.Run.{Run, done, pure, call, ◌>>=◌, ◌>>◌}
use system_sw_gui_project.Run.Returns.{
  Returns, Returns-pure, returns_rules, Returns-bind, Returns-call, Returns-if, ReturnsAt,
  ReturnsAt-call,
}
use system_sw_gui_project.Backend.Calls.{Calls, Kind, regular, directory, other, note}
use system_sw_gui_project.Backend.Files.{
  join, remove_callback, remove_all, remove_walked, remove_kind, remove_file_or_directory,
  each_entry, into_directory, move_file, move_kind, move_directory, copy_regular, copy_kind,
  copy_file,
}
use system_sw_gui_project.Backend.Ends.{Finite, Named, join_grows, copy_content-Returns}

module _ (K : Calls) where
  pub note-Returns : (t : String) → Returns (note K t)
  unfolding note
  note-Returns t = search returns_rules

  remove_callback-Returns : (p : Text) → Returns (remove_callback K p)
  unfolding remove_callback
  remove_callback-Returns p = search (returns_rules, note-Returns)

  remove_step-Returns :
      (rest : Run K.State Bool) (b : Bool)
      → Returns rest
      → Returns (elim b as (λ _. Run K.State Bool) [ true ↦ rest | false ↦ pure false ])
  remove_step-Returns rest true k = k
  remove_step-Returns rest false k = search returns_rules

  remove_all-Returns : (paths : List Text) → Returns (remove_all K paths)
  unfolding remove_all
  remove_all-Returns [] = search returns_rules
  remove_all-Returns (p ∷ paths) =
      Returns-bind _ _ (remove_callback-Returns p)
        (λ b. remove_step-Returns (remove_all K paths) b (remove_all-Returns paths))

  remove_walked-Returns : (o : Option (List Text)) → Returns (remove_walked K o)
  unfolding remove_walked
  remove_walked-Returns none = search returns_rules
  remove_walked-Returns (some paths) = remove_all-Returns paths

  remove_kind-Returns : (p : Text) (o : Option (Kind × ℕ)) → Returns (remove_kind K p o)
  unfolding remove_kind
  remove_kind-Returns p none = search (returns_rules, note-Returns)
  remove_kind-Returns p (some (directory, mode)) = search (returns_rules, remove_walked-Returns)
  remove_kind-Returns p (some (regular, mode)) = search returns_rules
  remove_kind-Returns p (some (other, mode)) = search returns_rules

  pub remove_file_or_directory-Returns : (p : Text) → Returns (remove_file_or_directory K p)
  unfolding remove_file_or_directory
  remove_file_or_directory-Returns p = search (returns_rules, remove_kind-Returns)

-- The recursive call returns for the sources in V, where a directory's entries are.
module _ (K : Calls) (V : Text → Type 0) (go : Text → Text → Run K.State Bool)
    (go-Returns : (p q : Text) → V p → Returns (go p q)) where
  entered-Returns :
      (rest : Run K.State Bool) (p q : Text)
      → V p
      → Returns rest
      → Returns (go p q >>= λ success. if success then rest else call K.closedir >> pure false)
  entered-Returns rest p q v k = search (returns_rules, go-Returns)

  each_entry-Returns :
      (names : List Text) (p q : Text)
      → ((name : Text) → name ≢ [] → V (join p name))
      → All (λ name. name ≢ []) names
      → Returns (each_entry K go p q names)
  unfolding each_entry
  each_entry-Returns [] p q v w = search returns_rules
  each_entry-Returns (name ∷ names) p q v (w, ws) =
      Returns-if _ _ _ (each_entry-Returns names p q v ws) (
        entered-Returns (each_entry K go p q names) (join p name) (join q name) (v name w)
          (each_entry-Returns names p q v ws))

  pub into_directory-Returns :
      (p q : Text) (mode : ℕ) (o : Option (List Text))
      → ((name : Text) → name ≢ [] → V (join p name))
      → Named o
      → Returns (into_directory K go p q mode o)
  unfolding into_directory
  into_directory-Returns p q mode none v w = search returns_rules
  into_directory-Returns p q mode (some names) v w =
      Returns-bind _ _ (Returns-call _) (λ _. each_entry-Returns names p q v w)

-- Enough depth for a path: its length and the depth reach PATH_MAX.
abbrev pub Enough : ℕ → Text → Type 0
Enough depth p = (0 < depth) × (4096 ≤ length p + depth)

module _ (K : Calls) (fuel : ℕ) (h : Finite K fuel) where
  Enough-join :
      (depth : ℕ) (p : Text)
      → Enough (suc depth) p
      → length p < 4094
      → (name : Text) → name ≢ []
      → Enough depth (join p name)
  Enough-join depth p (e, f) l name n =
      (omega (arith, f, l), omega (arith, f, join_grows p name l n))

  copy_regular-Returns : (p q : Text) (mode : ℕ) → Returns (copy_regular K fuel p q mode)
  unfolding copy_regular
  copy_regular-Returns p q mode = search (returns_rules, copy_content-Returns) depth 8

  copy_kind-Returns :
      (go : Text → Text → Run K.State Bool) (depth : ℕ)
      → ((p q : Text) → Enough depth p → Returns (go p q))
      → (p q : Text) (s : K.State) (o : Option (Kind × ℕ))
      → ((mode : ℕ) → o ≡ some (directory, mode) → length p < 4094)
      → Enough (suc depth) p
      → ReturnsAt (copy_kind K go fuel p q o) s
  unfolding copy_kind
  copy_kind-Returns go depth k p q s none l e = (Returns-pure false).at s
  copy_kind-Returns go depth k p q s (some (regular, mode)) l e =
      (copy_regular-Returns p q mode).at s
  copy_kind-Returns go depth k p q s (some (directory, mode)) l e = ReturnsAt-call _ _ s (
      (into_directory-Returns K (Enough depth) go k p q mode _ (Enough-join depth p e (l mode refl))
          (h.names p s)).at
        _)
  copy_kind-Returns go depth k p q s (some (other, mode)) l e = (Returns-pure false).at s

  pub copy_file-Returns :
      (depth : ℕ) (p q : Text) → Enough depth p → Returns (copy_file K depth fuel p q)
  unfolding copy_file
  copy_file-Returns zero p q (e, _) = absurd (omega (arith, e))
  copy_file-Returns (suc depth) p q e = record {
    at = λ s. ReturnsAt-call _ _ s (
        copy_kind-Returns (copy_file K depth fuel) depth (copy_file-Returns depth) p q _ _
          (h.short p s) e);
  }

  move_file-Returns : (p q : Text) → Returns (move_file K fuel p q)
  unfolding move_file
  move_file-Returns p q = search (returns_rules, copy_content-Returns) depth 8

  move_kind-Returns :
      (go : Text → Text → Run K.State Bool) (depth : ℕ)
      → ((p q : Text) → Enough depth p → Returns (go p q))
      → (p q : Text) (s : K.State) (o : Option (Kind × ℕ))
      → ((mode : ℕ) → o ≡ some (directory, mode) → length p < 4094)
      → Enough (suc depth) p
      → ReturnsAt (move_kind K go fuel p q o) s
  unfolding move_kind
  move_kind-Returns go depth k p q s none l e = (Returns-pure false).at s
  move_kind-Returns go depth k p q s (some (directory, mode)) l e = ReturnsAt-call _ _ s (
      (Returns-bind _ _
          (into_directory-Returns K (Enough depth) go k p q mode _
            (Enough-join depth p e (l mode refl)) (h.names p s))
          (λ moved. search (returns_rules, remove_file_or_directory-Returns))).at
        _)
  move_kind-Returns go depth k p q s (some (regular, mode)) l e = (move_file-Returns p q).at s
  move_kind-Returns go depth k p q s (some (other, mode)) l e = (move_file-Returns p q).at s

  pub move_directory-Returns :
      (depth : ℕ) (p q : Text) → Enough depth p → Returns (move_directory K depth fuel p q)
  unfolding move_directory
  move_directory-Returns zero p q (e, _) = absurd (omega (arith, e))
  move_directory-Returns (suc depth) p q e = record {
    at = λ s. ReturnsAt-call _ _ s (
        move_kind-Returns (move_directory K depth fuel) depth (move_directory-Returns depth) p q _ _
          (h.short p s) e);
  }

module _ (K : Calls) (depth fuel : ℕ) (e : 4096 ≤ depth) (h : Finite K fuel) (p q : Text)
    (s : K.State) where
  copy_file_lem : (b : Bool) × ((copy_file K depth fuel p q s).0 ≡ done b)
  copy_file_lem = (copy_file-Returns K fuel h depth p q (omega (arith, e), omega (arith, e))).at s

  move_directory_lem : (b : Bool) × ((move_directory K depth fuel p q s).0 ≡ done b)
  move_directory_lem =
      (move_directory-Returns K fuel h depth p q (omega (arith, e), omega (arith, e))).at s

  -- Copying and moving both return a result whatever the tree and the destination, where the depth
  -- is 4096 at least and the streams, names and paths are as in Finite: each nested path is longer
  -- than the one before, and none of a directory has more than 4093 bytes.
  pub trees_return :
      ((b : Bool) × ((copy_file K depth fuel p q s).0 ≡ done b))
      × ((b : Bool) × ((move_directory K depth fuel p q s).0 ≡ done b))
  trees_return = (copy_file_lem, move_directory_lem)
