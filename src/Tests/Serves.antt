-- ===== src/Tests/Serves.antt =====
-- Two requests to delete a file, and the end of the loop.
use system_sw_gui_project.Prelude.{
  true, Option, none, some, List, [], ◌∷◌, ◌≡◌, refl, Text, codes, arith,
}
use system_sw_gui_project.Run.{Op, ◌>>=◌}
use system_sw_gui_project.Backend.Calls.{Calls, regular, made, Message, note, send_response}
use system_sw_gui_project.Libc.Strings.{str_eq}
use system_sw_gui_project.Backend.Files.{remove_file_or_directory}
use system_sw_gui_project.Backend.Requests.{serve, is_quit, handle}
use system_sw_gui_project.Backend.Serves.{Serial, serve_each}
use system_sw_gui_project.Backend.Serves.Order.{serve-each}

pub record Post : Type 0 where
  pub queue : List Message
  pub unlinked : List Text

abbrev receive : List Message → Op Post (Option Message)
receive [] s = (none, s)
receive (m ∷ ms) s = (some m, record s { queue = ms })

-- Every path is a regular file that can be removed.
abbrev pub post : Calls
post = record {
  State = Post;
  log = λ t s. (tt, s);
  stat = λ p s. (some (regular, 0o644), s);
  walk = λ p s. (none, s);
  remove = λ p s. (true, s);
  rmdir = λ p s. (true, s);
  unlink = λ p s. (true, record s { unlinked = p ∷ s.unlinked });
  rename = λ p q s. (true, s);
  chmod = λ p m s. (true, s);
  mkdir = λ p m s. (made, s);
  symlink = λ p q s. (made, s);
  opendir = λ p s. (none, s);
  closedir = λ s. (tt, s);
  fopen_read = λ p s. (none, s);
  fopen_write = λ p s. (none, s);
  fread = λ f n s. ([], s);
  fwrite = λ f t s. (0, s);
  fclose = λ f s. (tt, s);
  malloc = λ n s. (true, s);
  create = λ p s. (true, s);
  ftok = λ p s. (some 1, s);
  msgget = λ k s. (some 1, s);
  msgrcv = λ q s. receive s.queue s;
  msgsnd = λ q m s. (true, s);
  dirname = λ p. p;
}

receive-taken :
    (q : List Message) (m : Message) (ms : List Message) (s : Post)
    → q ≡ m ∷ ms
    → ((receive q s).0 ≡ some m) × ((receive q s).1.queue ≡ ms)
receive-taken [] m ms s e = absurd (cc)
receive-taken (n ∷ ns) m ms s e = (cc, cc)

pub post-Serial : Serial post 1 (λ s. s.queue)
post-Serial = record {
  others = λ q. record {
    below = λ p name w. tt;
    visited = λ p s w. tt;
    log = λ t. record { at = λ s h. h };
    stat = λ p. record { at = λ s h. h };
    walk = λ p. record { at = λ s h. h };
    opendir = λ p. record { at = λ s h. h };
    closedir = record { at = λ s h. h };
    fopen_read = λ p. record { at = λ s h. h };
    fread = λ f n. record { at = λ s h. h };
    fwrite = λ f t. record { at = λ s h. h };
    fclose = λ f. record { at = λ s h. h };
    remove = λ p w. record { at = λ s h. h };
    rmdir = λ p w. record { at = λ s h. h };
    unlink = λ p w. record { at = λ s h. h };
    rename = λ p q w x. record { at = λ s h. h };
    chmod = λ p m w. record { at = λ s h. h };
    mkdir = λ p m w. record { at = λ s h. h };
    fopen_write = λ p w. record { at = λ s h. h };
  };
  symlink = λ q p t. record { at = λ s h. h };
  malloc = λ q n. record { at = λ s h. h };
  msgsnd = λ q r m. record { at = λ s h. h };
  taken = λ m ms s e. receive-taken s.queue m ms s e;
}

abbrev delete : Text → Message
delete p = record { mtype = 2; mtext = p }

abbrev pub quit : Message
quit = record { mtype = 1; mtext = codes "QUIT" }

abbrev mail : Post
mail = record {
  queue = delete (codes "/a") ∷ delete (codes "/b") ∷ quit ∷ delete (codes "/c") ∷ [];
  unlinked = [];
}

served_run : (serve post 4096 6 2 5 1 mail).1.unlinked ≡ codes "/b" ∷ codes "/a" ∷ []
unfolding serve ◌>>=◌ note handle remove_file_or_directory send_response str_eq
served_run = refl

serve-each_example :
    serve post 4096 6 2 5 1 mail
    ≡ serve_each post 4096 6 2 1 (delete (codes "/a") ∷ delete (codes "/b") ∷ []) mail
unfolding is_quit str_eq
serve-each_example =
    serve-each post 4096 6 2 1 (λ s. s.queue) post-Serial
      (delete (codes "/a") ∷ delete (codes "/b") ∷ []) 5 quit (delete (codes "/c") ∷ []) mail
      (omega arith) (refl, (refl, tt)) refl refl
