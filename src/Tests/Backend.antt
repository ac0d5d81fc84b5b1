-- ===== src/Tests/Backend.antt =====
-- The backend over a file that can be read once, with a record of what is created and sent.
use system_sw_gui_project.Prelude.{
  ℕ, zero, suc, ◌++◌, ◌<◌, ◌≤◌, ◌≡◌, refl, Bool, true, false, Option, none, some, List, [], ◌∷◌,
  Text, codes, take, drop, length, arith, if◌then◌else◌, leb, All,
}
use system_sw_gui_project.Libc.Strings.{tokens, truncate, starts_with}
use system_sw_gui_project.Run.{Op, done}
use system_sw_gui_project.Backend.Calls.{Calls, Kind, regular, directory, Made, made, eexist}
use system_sw_gui_project.Backend.Files.{join, copy_file, move_directory}
use system_sw_gui_project.Backend.Requests.{handle, mkdir_loop}
use system_sw_gui_project.Backend.Allows.{Allows}
use system_sw_gui_project.Backend.Allows.Files.{copy_file_allowed, move_directory_allowed}
use system_sw_gui_project.Backend.Ends.{Finite, Shrunk}
use system_sw_gui_project.Backend.Ends.Trees.{trees_return}
use system_sw_gui_project.Backend.Answers.{Counted, handle_answers}
use system_sw_gui_project.Backend.Numbered.{
  Makes, make_numbered, make_digit, free_from, used, mkdir_loop-make_numbered,
}

pub record Disk : Type 0 where
  pub left : Text
  pub changed : List Text
  pub sent : ℕ

-- A path of at most two bytes is a directory.
abbrev pub found : Text → Option (Kind × ℕ)
found p = elim (leb (length p) 2) [ true ↦ some (directory, 0o755) | false ↦ some (regular, 0o644) ]

abbrev pub touch : {A : Type 0} → Text → A → Op Disk A
touch p a s = (a, record s { changed = p ∷ s.changed })

abbrev pub name_once : Text → Op Disk Made
name_once p s = if starts_with p (codes "/x0") then (eexist, s) else touch p made s

abbrev pub entries : Text → List Text
entries p = codes "." ∷ codes "f" ∷ []

abbrev pub disk : Calls
disk = record {
  State = Disk;
  log = λ t s. (tt, s);
  stat = λ p s. (found p, s);
  walk = λ p s. (none, s);
  remove = λ p. touch p true;
  rmdir = λ p. touch p true;
  unlink = λ p. touch p true;
  rename = λ p q s. (false, s);
  chmod = λ p m. touch p true;
  mkdir = λ p m. name_once p;
  symlink = λ p q s. (made, s);
  opendir = λ p s. (some (entries p), s);
  closedir = λ s. (tt, s);
  fopen_read = λ p s. (some 3, record s { left = codes "hello" });
  fopen_write = λ p. touch p (some 4);
  fread = λ f n s. (take n s.left, record s { left = drop n s.left });
  fwrite = λ f t s. (length t, s);
  fclose = λ f s. (tt, s);
  malloc = λ n s. (true, s);
  create = λ p s. (true, s);
  ftok = λ p s. (some 1, s);
  msgget = λ k s. (some 1, s);
  msgrcv = λ q s. (none, s);
  msgsnd = λ q m s. (true, record s { sent = suc s.sent });
  dirname = λ p. codes "/a";
}

abbrev empty_disk : Disk
empty_disk = record { left = []; changed = []; sent = 0 }

found-short : (p : Text) (mode : ℕ) → found p ≡ some (directory, mode) → length p < 4094
found-short p mode e = ground arith

length-drop : (n : ℕ) (t : Text) → length (drop n t) ≤ length t
length-drop zero t = omega arith
length-drop (suc n) [] = omega arith
length-drop (suc n) (c ∷ t) = omega (arith, length-drop n t)

read-Shrunk : (n : ℕ) (t : Text) → Shrunk (length t) (length (drop n t)) (take n t)
read-Shrunk zero t = tt
read-Shrunk (suc n) [] = tt
read-Shrunk (suc n) (c ∷ t) = omega (arith, length-drop n t)

disk-Finite : Finite disk 6
disk-Finite = record {
  left = λ s f. length s.left;
  short = λ p s mode e. found-short p mode e;
  names = λ p s. ((λ e. cc), ((λ e. cc), tt));
  opened = λ p s. omega arith;
  created = λ p s f. omega arith;
  read = λ f n s. read-Shrunk n s.left;
  wrote = λ f g t s. omega arith;
}

name_kept :
    (P : Disk → Type 0) (b : Bool) (p : Text) (s : Disk)
    → P s
    → P (record s { changed = p ∷ s.changed })
    → P (if b then (eexist, s) else touch p made s).1
name_kept P true p s h k = h
name_kept P false p s h k = k

-- A property that no reading and no change of an allowed path breaks is kept by the calls.
disk-Allows :
    (P : Disk → Type 0) (W : Text → Type 0)
    → ((p name : Text) → W p → W (join p name))
    → ((p : Text) (s : Disk) → W p → P s → P (record s { changed = p ∷ s.changed }))
    → ((t : Text) (s : Disk) → P s → P (record s { left = t }))
    → Allows disk P W
disk-Allows P W under changes reads = record {
  below = under;
  visited = λ p s w. tt;
  log = λ t. record { at = λ s h. h };
  stat = λ p. record { at = λ s h. h };
  walk = λ p. record { at = λ s h. h };
  opendir = λ p. record { at = λ s h. h };
  closedir = record { at = λ s h. h };
  fopen_read = λ p. record { at = λ s h. reads _ s h };
  fread = λ f n. record { at = λ s h. reads _ s h };
  fwrite = λ f t. record { at = λ s h. h };
  fclose = λ f. record { at = λ s h. h };
  remove = λ p w. record { at = λ s h. changes p s w h };
  rmdir = λ p w. record { at = λ s h. changes p s w h };
  unlink = λ p w. record { at = λ s h. changes p s w h };
  rename = λ p q w v. record { at = λ s h. h };
  chmod = λ p m w. record { at = λ s h. changes p s w h };
  mkdir = λ p m w. record {
    at = λ s h. name_kept P (starts_with p (codes "/x0")) p s h (changes p s w h);
  };
  fopen_write = λ p w. record { at = λ s h. changes p s w h };
}

starts_with-truncate :
    (n : ℕ) (p x pre : Text)
    → length pre ≤ n
    → starts_with p pre ≡ true
    → starts_with (truncate n (p ++ x)) pre ≡ true
unfolding starts_with truncate
starts_with-truncate n p x [] l e = refl
starts_with-truncate zero p x (d ∷ t) l e = absurd (omega (arith, l))
starts_with-truncate (suc n) [] x (d ∷ t) l e = absurd (cc)
starts_with-truncate (suc n) (c ∷ p) x (d ∷ t) l e = ground (arith, starts_with-truncate n p x t)

-- The paths that begin with a text of two bytes at most, and only these have changed.
abbrev Under : Text → Text → Type 0
Under pre p = starts_with p pre ≡ true

Under-join : (pre p name : Text) → length pre ≤ 2 → Under pre p → Under pre (join p name)
unfolding join
Under-join pre p name l e = starts_with-truncate 4095 p _ pre (omega (arith, l)) e

Under-Allows :
    (pre : Text) → length pre ≤ 2 → Allows disk (λ s. All (Under pre) s.changed) (Under pre)
Under-Allows pre l =
    disk-Allows _ _ (λ p name. Under-join pre p name l) (λ p s w h. (w, h)) (λ t s h. h)

copy_file_allowed_example :
    All (Under (codes "/b")) (copy_file disk 3 6 (codes "/a") (codes "/b") empty_disk).1.changed
unfolding starts_with
copy_file_allowed_example =
    copy_file_allowed disk (λ s. All (Under (codes "/b")) s.changed) (Under (codes "/b"))
      (Under-Allows (codes "/b") (omega arith)) 3 6 (codes "/a") (codes "/b") empty_disk refl tt

move_directory_allowed_example :
    All (Under (codes "/")) (move_directory disk 3 6 (codes "/a") (codes "/b") empty_disk).1.changed
unfolding starts_with
move_directory_allowed_example =
    move_directory_allowed disk (λ s. All (Under (codes "/")) s.changed) (Under (codes "/"))
      (Under-Allows (codes "/") (omega arith)) 3 6 (codes "/a") (codes "/b") empty_disk refl refl tt

trees_return_example :
    ((b : Bool) × ((copy_file disk 4096 6 (codes "/a") (codes "/b") empty_disk).0 ≡ done b))
    × ((b : Bool) × ((move_directory disk 4096 6 (codes "/a") (codes "/b") empty_disk).0 ≡ done b))
trees_return_example =
    trees_return disk 4096 6 (omega arith) disk-Finite (codes "/a") (codes "/b") empty_disk

disk-Counted : Counted disk (λ s. s.sent)
disk-Counted = record {
  quiet =
      λ c. disk-Allows (λ s. s.sent ≡ c) (λ _. Unit) (λ p name w. tt) (λ p s w h. h) (λ t s h. h);
  symlink = λ c p q. record { at = λ s h. h };
  msgsnd = λ q m s. refl;
}

handle_answers_example :
    ((handle disk 4096 6 2 (record { mtype = 6; mtext = codes "/a$/b" }) empty_disk).0 ≡ done tt)
    × ((handle disk 4096 6 2 (record { mtype = 6; mtext = codes "/a$/b" }) empty_disk).1.sent ≡ 1)
unfolding tokens
handle_answers_example =
    handle_answers disk (λ s. s.sent) disk-Counted 4096 6 2 (omega arith) disk-Finite 6
      (codes "/a$/b") (codes "/a") (codes "/b") [] (omega arith) (omega arith) refl empty_disk

-- The names that begin with /x0 are taken.
abbrev taken : Text → Disk → Bool
taken p s = starts_with p (codes "/x0")

name_once-new :
    (p : Text) (s : Disk) → taken p s ≡ false → name_once p s ≡ (made, (name_once p s).1)
name_once-new p s e = rw e refl

name_once-old : (p : Text) (s : Disk) → taken p s ≡ true → name_once p s ≡ (eexist, s)
name_once-old p s e = rw e refl

disk-Makes : Makes disk taken
disk-Makes = record { new = λ p m s e. name_once-new p s e; old = λ p m s e. name_once-old p s e }

mkdir_loop-make_numbered_example :
    mkdir_loop disk 0 0 2 11 0 0 (codes "/x") empty_disk
    ≡ make_numbered disk
        (make_digit disk 0 0 2 taken disk-Makes (codes "/x"))
        (free_from (used disk 0 0 2 taken disk-Makes (codes "/x") empty_disk) 10 0)
        empty_disk
mkdir_loop-make_numbered_example =
    mkdir_loop-make_numbered disk 0 0 2 taken disk-Makes (codes "/x") empty_disk
