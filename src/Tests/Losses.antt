-- ===== src/Tests/Losses.antt =====
-- Two files of a disk whose rename fails, as between file systems.
use system_sw_gui_project.Prelude.{
  Bool, not, Bool-cases, inl, inr, ◌==◌, ◌∙◌, ℕ, suc, ◌++◌, ◌≡◌, refl, true, false, Option, none,
  some, [], ◌∷◌, Text, codes, take, drop, length, if◌then◌else◌,
}
use system_sw_gui_project.Libc.Strings.{str_eq, str_eq_iff}
use system_sw_gui_project.Run.{Op}
use system_sw_gui_project.Shell.Streams.Copy.{take-append_drop}
use system_sw_gui_project.Backend.Calls.{Calls, Kind, regular, directory, made}
use system_sw_gui_project.Backend.Files.{move_directory}
use system_sw_gui_project.Backend.Losses.{Contents, Moved}
use system_sw_gui_project.Backend.Losses.Moves.{move_directory-Moved}

-- The files, what is left to read, and the path that is written.
pub record Volume : Type 0 where
  pub at : Text → Option Text
  pub left : Text
  pub target : Option Text

abbrev put : Text → Option Text → (Text → Option Text) → Text → Option Text
put p v at q = if str_eq p q then v else at q

put-same : (p : Text) (v : Option Text) (at : Text → Option Text) → put p v at p ≡ v
put-same p v at = rw ((str_eq_iff p p).1 refl) refl

abbrev differ : Text → Text → Bool
differ p q = not (str_eq p q)

put-other :
    (p q : Text) (v : Option Text) (at : Text → Option Text)
    → differ p q ≡ true
    → put p v at q ≡ at q
put-other p q v at h = elim (Bool-cases (str_eq p q)) [ inl e ↦ absurd (cc) | inr e ↦ rw e refl ]

-- The files but the one that is written.
abbrev masked : Option Text → (Text → Option Text) → Text → Option Text
masked none at q = at q
masked (some p) at q = put p none at q

masked-put :
    (p q : Text) (v : Option Text) (at : Text → Option Text)
    → masked (some p) (put p v at) q ≡ masked (some p) at q
masked-put p q v at = elim (Bool-cases (str_eq p q)) [ inl e ↦ rw e refl | inr e ↦ rw e refl ]

masked-other :
    (o : Option Text) (p q : Text) (at : Text → Option Text)
    → differ p q ≡ true
    → masked o (put p none at) q ≡ masked o at q
masked-other none p q at h = put-other p q none at h
masked-other (some r) p q at h = rw (put-other p q none at h) refl

masked-none :
    (o : Option Text) (q : Text) (at : Text → Option Text) → at q ≡ none → masked o at q ≡ none
masked-none none q at e = e
masked-none (some p) q at e = elim (Bool-cases (str_eq p q)) [ inl i ↦ rw i refl | inr i ↦ rw i e ]

masked-some :
    (o : Option Text) (q t : Text) (at : Text → Option Text)
    → masked o at q ≡ some t
    → at q ≡ some t
masked-some none q t at e = e
masked-some (some p) q t at e = elim (Bool-cases (str_eq p q)) [ inl i ↦ absurd (cc) | inr i ↦ cc ]

abbrev kind_of : Option Text → Option (Kind × ℕ)
kind_of none = some (directory, 0o755)
kind_of (some t) = some (regular, 0o644)

abbrev open_found : Option Text → Op Volume (Option ℕ)
open_found none s = (none, s)
open_found (some t) s = (some 3, record s { left = t })

abbrev appended : Text → Option Text → Option Text
appended t none = none
appended t (some old) = some (old ++ t)

abbrev write : Option Text → Text → Op Volume ℕ
write none t s = (0, s)
write (some p) t s = (length t, record s { at = put p (appended t (s.at p)) s.at })

-- The stream that is written is 4.
abbrev close : Bool → Op Volume (Unit {0})
close true s = (tt, record s { target = none })
close false s = (tt, s)

abbrev settled : Volume → Text → Option Text
settled s q = masked s.target s.at q

abbrev volume : Calls
volume = record {
  State = Volume;
  log = λ t s. (tt, s);
  stat = λ p s. (kind_of (s.at p), s);
  walk = λ p s. (none, s);
  remove = λ p s. (false, s);
  rmdir = λ p s. (false, s);
  unlink = λ p s. (true, record s { at = put p none s.at });
  rename = λ p q s. (false, s);
  chmod = λ p m s. (true, s);
  mkdir = λ p m s. (made, s);
  symlink = λ p q s. (made, s);
  opendir = λ p s. (none, s);
  closedir = λ s. (tt, s);
  fopen_read = λ p s. open_found (s.at p) s;
  fopen_write = λ p s. (some 4, record s { at = put p (some []) s.at; target = some p });
  fread = λ f n s. (take n s.left, record s { left = drop n s.left });
  fwrite = λ f t s. write s.target t s;
  fclose = λ f s. close (f == 4) s;
  malloc = λ n s. (true, s);
  create = λ p s. (true, s);
  ftok = λ p s. (some 1, s);
  msgget = λ k s. (some 1, s);
  msgrcv = λ q s. (none, s);
  msgsnd = λ q m s. (true, s);
  dirname = λ p. codes "/";
}

taken-none : (n : ℕ) (t : Text) → take (suc n) t ≡ [] → t ≡ []
taken-none n [] e = refl
taken-none n (c ∷ t) e = absurd (cc)

kind_of-directory : (o : Option Text) (mode : ℕ) → kind_of o ≡ some (directory, mode) → o ≡ none
kind_of-directory none mode e = refl
kind_of-directory (some t) mode e = absurd (cc)

open_found-left :
    (o : Option Text) (s : Volume) (t : Text) → o ≡ some t → (open_found o s).1.left ≡ t
open_found-left none s t e = absurd (cc)
open_found-left (some u) s t e = cc

open_found-settled :
    (o : Option Text) (q : Text) (s : Volume) → settled (open_found o s).1 q ≡ settled s q
open_found-settled none q s = refl
open_found-settled (some u) q s = refl

created-settled :
    (p q t : Text) (s : Volume)
    → differ p q ≡ true
    → settled s q ≡ some t
    → masked (some p) (put p (some []) s.at) q ≡ some t
created-settled p q t s h e =
    masked-put p q (some []) s.at ∙ put-other p q none s.at h ∙ masked-some s.target q t s.at e

write-at :
    (o : Option Text) (t old p : Text) (s : Volume)
    → o ≡ some p
    → s.at p ≡ some old
    → (write o t s).1.at p ≡ some (old ++ t)
write-at none t old p s e h = absurd (cc)
write-at (some q) t old p s e h =
    let same : q ≡ p = cc in rw (same, put-same p (appended t (s.at p)) s.at, h) refl

write-settled :
    (o : Option Text) (t q : Text) (s : Volume)
    → s.target ≡ o
    → settled (write o t s).1 q ≡ settled s q
write-settled none t q s e = refl
write-settled (some p) t q s e = rw e (masked-put p q (appended t (s.at p)) s.at)

write-left : (o : Option Text) (t : Text) (s : Volume) → (write o t s).1.left ≡ s.left
write-left none t s = refl
write-left (some p) t s = refl

write-target : (o : Option Text) (t : Text) (s : Volume) → (write o t s).1.target ≡ s.target
write-target none t s = refl
write-target (some p) t s = refl

close-settled :
    (b : Bool) (q t : Text) (s : Volume) → settled s q ≡ some t → settled (close b s).1 q ≡ some t
close-settled true q t s e = masked-some s.target q t s.at e
close-settled false q t s e = e

close-at : (b : Bool) (q : Text) (s : Volume) → (close b s).1.at q ≡ s.at q
close-at true q s = refl
close-at false q s = refl

never : (A : Type 0) → false ≡ true → A
never A e = absurd (cc)

abbrev volume-Contents : Contents volume
volume-Contents = record {
  settled = settled;
  pending = λ s p. s.at p;
  left = λ s f. s.left;
  target = λ s g. s.target;
  failed = λ s. false;
  apart = differ;
  stat_settled = λ p q s. refl;
  stat_directory = λ p s mode e. masked-none s.target p s.at (kind_of-directory (s.at p) mode e);
  renamed = λ p q t s e. never _ e;
  not_renamed = λ p q r s e. refl;
  unlinked_settled = λ p q s h. masked-other s.target p q s.at h;
  unlinked_pending = λ p q s h. put-other p q none s.at h;
  unlinked_failed = λ p s e. e;
  opened = λ p s f t e h. open_found-left (s.at p) s t (masked-some s.target p t s.at h);
  opened_settled = λ p q s. open_found-settled (s.at p) q s;
  created = λ p s g e. (put-same p (some []) s.at, refl);
  created_settled = λ p q t s h e. created-settled p q t s h e;
  created_left = λ p s f. refl;
  read = λ f n s. take-append_drop (suc n) s.left;
  read_end = λ f n s e. inl (taken-none n s.left e);
  read_settled = λ f n q s. refl;
  read_pending = λ f n q s. refl;
  read_target = λ f n g s. refl;
  read_failed = λ f n s e. e;
  wrote = λ g t old p s e h l. inl (write-at s.target t old p s e h);
  wrote_settled = λ g t q s. write-settled s.target t q s refl;
  wrote_left = λ g t s f. write-left s.target t s;
  wrote_target = λ g t s h. write-target s.target t s;
  wrote_failed = λ g t s e. e;
  closed_settled = λ f q t s e. close-settled (f == 4) q t s e;
  closed_pending = λ f q s. inl (close-at (f == 4) q s);
  closed_failed = λ f s e. e;
}

abbrev one_file : Volume
one_file = record {
  at = put (codes "/a") (some (codes "hello")) (λ _. none);
  left = [];
  target = none;
}

move_directory-Moved_example :
    Moved volume volume-Contents
      (codes "/a")
      (codes "/b")
      (codes "hello")
      (move_directory volume 1 3 (codes "/a") (codes "/b") one_file)
unfolding str_eq
move_directory-Moved_example =
    move_directory-Moved volume volume-Contents (codes "/a") (codes "/b") (codes "hello") refl refl
      1 3 one_file refl
