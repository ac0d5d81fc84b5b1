-- ===== src/Client/Favorites/Rows.antt =====
-- What the list of favorites shows.
use system_sw_gui_project.Prelude.{
  ℕ, zero, suc, ◌<◌, length, arith, Option, none, some, List, [], ◌∷◌, ◌++◌, ◌≡◌, refl, sym, ap,
  ◌∙◌, Text, append-nil, append_assoc,
}
use system_sw_gui_project.Run.{Run, done, ◌>>=◌, pure}
use system_sw_gui_project.Run.Returns.{bind_done}
use system_sw_gui_project.Client.Session.{Desktop, UserData, Session, outside}
use system_sw_gui_project.Client.Widgets.{Widgets}
use system_sw_gui_project.Client.Favorites.{
  link_dir, target_max, remove_children, add_row, add_rows, list_links, update_favorites_list,
}

-- The rows of the list: first_child finds the first one, which list_remove takes away, and
-- append_row adds one at the end. The links of a
-- directory do not change while it is read.
pub record ListDocumented (D : Desktop) (W : Widgets D) : Type 0 where
  pub rows : D.State → List (Text × Text)
  pub target : Text → Option Text
  pub first_child-none : (s : D.State) → rows s ≡ [] → (W.first_child s).0 ≡ none
  pub first_child-some :
      (row : Text × Text) (rest : List (Text × Text)) (s : D.State)
      → rows s ≡ row ∷ rest
      → (child : ℕ) × ((W.first_child s).0 ≡ some child)
        × (rows (W.list_remove child (W.first_child s).1).1 ≡ rest)
  pub rows-first_child : (s : D.State) → rows (W.first_child s).1 ≡ rows s
  pub rows-opened : (p : Text) (s : D.State) → rows (W.dir_open p s).1 ≡ rows s
  pub rows-closed : (s : D.State) → rows (W.dir_close s).1 ≡ rows s
  pub target-readlink : (p : Text) (s : D.State) → (W.readlink p target_max s).0 ≡ target p
  pub rows-readlink : (p : Text) (n : ℕ) (s : D.State) → rows (W.readlink p n s).1 ≡ rows s
  pub rows-appended :
      (name t : Text) (s : D.State) → rows (W.append_row name t s).1 ≡ rows s ++ (name, t) ∷ []

abbrev pub row_of : Text → Option Text → List (Text × Text)
row_of name none = []
row_of name (some t) = (name, t) ∷ []

module _ (D : Desktop) (W : Widgets D) (list : ListDocumented D W) where
  -- A row for each name that is a link, with what it points to.
  abbrev pub links : List Text → List (Text × Text)
  links [] = []
  links (name ∷ names) = row_of name (list.target (D.build_filename link_dir name)) ++ links names

  -- The run returns, and adds these rows.
  abbrev Adds : Run (Session D) (Unit {0}) → List (Text × Text) → Type 0
  Adds m new = (w : Session D) → ((m w).0 ≡ done tt) × (list.rows (m w).1.1 ≡ list.rows w.1 ++ new)

  add_row-Adds : (name : Text) (t : Option Text) → Adds (add_row D W name t) (row_of name t)
  unfolding add_row pure
  add_row-Adds name none w = (refl, sym (append-nil (list.rows w.1)))
  add_row-Adds name (some t) w = (refl, list.rows-appended name t w.1)

  Adds-bind :
      (m n : Run (Session D) (Unit {0})) (xs ys : List (Text × Text))
      → Adds m xs
      → Adds n ys
      → Adds (m >>= λ _. n) (xs ++ ys)
  Adds-bind m n xs ys am an w =
      let (d, e) = am w in
      let (d', e') = an (m w).1 in
      rw (bind_done m (λ _. n) w tt d)
        (d', e' ∙ ap (λ q. q ++ ys) e ∙ append_assoc (list.rows w.1) xs ys)

  add_rows-Adds : (names : List Text) → Adds (add_rows D W names) (links names)
  unfolding add_rows ◌>>=◌
  add_rows-Adds [] w = (refl, list.rows-closed w.1 ∙ sym (append-nil (list.rows w.1)))
  add_rows-Adds (name ∷ names) (u, s) =
      let p = D.build_filename link_dir name in
      let (d, e) =
        Adds-bind (add_row D W name (list.target p)) (add_rows D W names)
          (row_of name (list.target p)) (links names) (add_row-Adds name (list.target p))
          (add_rows-Adds names) (u, (W.readlink p target_max s).1) in
      rw (list.target-readlink p s)
        (d, e ∙ ap (λ q. q ++ links (name ∷ names)) (list.rows-readlink p target_max s))

  -- The loop returns and leaves no row, if it may go round once more than there are rows.
  remove_children-Empties :
      (fuel : ℕ) (old : List (Text × Text)) (u : UserData) (s : D.State)
      → list.rows s ≡ old
      → length old < fuel
      → ((remove_children D W fuel (u, s)).0 ≡ done tt)
        × (list.rows (remove_children D W fuel (u, s)).1.1 ≡ [])
  unfolding remove_children pure ◌>>=◌
  remove_children-Empties zero old u s e l = absurd (omega (arith, l))
  remove_children-Empties (suc fuel) [] u s e l =
      rw (list.first_child-none s e) (refl, list.rows-first_child s ∙ e)
  remove_children-Empties (suc fuel) (row ∷ rest) u s e l =
      let (child, found, left) = list.first_child-some row rest s e in
      rw found (
        remove_children-Empties fuel rest u (W.list_remove child (W.first_child s).1).1 left
          (omega (arith, l)))

  listed :
      (names : List Text) (w : Session D)
      → list.rows w.1 ≡ []
      → (W.dir_open link_dir w.1).0 ≡ some names
      → (((outside D (W.dir_open link_dir) >>= list_links D W) w).0 ≡ done tt)
        × (list.rows ((outside D (W.dir_open link_dir) >>= list_links D W) w).1.1 ≡ links names)
  unfolding list_links ◌>>=◌
  listed names (v, h) empty e =
      let (d, a) = add_rows-Adds names (v, (W.dir_open link_dir h).1) in
      rw e (d, a ∙ ap (λ q. q ++ links names) (list.rows-opened link_dir h ∙ empty))

  -- Where /tmp/link can be read once the rows are removed, the list of favorites has just a row for
  -- each link in it, in the order of the names, with what the link points to, whatever rows it had
  -- before. The loop that removes rows may go round once more than there are rows.
  pub update_favorites_list_lem :
      (fuel : ℕ) (u : UserData) (s : D.State) (names : List Text)
      → length (list.rows s) < fuel
      → (W.dir_open link_dir (remove_children D W fuel (u, s)).1.1).0 ≡ some names
      → ((update_favorites_list D W fuel (u, s)).0 ≡ done tt)
        × (list.rows (update_favorites_list D W fuel (u, s)).1.1 ≡ links names)
  unfolding update_favorites_list
  update_favorites_list_lem fuel u s names l e =
      let (d, empty) = remove_children-Empties fuel (list.rows s) u s refl l in
      rw (bind_done (remove_children D W fuel) _ (u, s) tt d) (listed names _ empty e)
