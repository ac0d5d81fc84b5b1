-- ===== src/Tests/Served.antt =====
-- Three requests of a window, which the backend of Tests/Serves takes.
use system_sw_gui_project.Prelude.{List, [], ◌∷◌, ◌++◌, ◌≡◌, refl, Text, codes, arith}
use system_sw_gui_project.Libc.Strings.{str_eq}
use system_sw_gui_project.Backend.Requests.{serve, is_quit}
use system_sw_gui_project.Client.Requests.{IsPart}
use system_sw_gui_project.Client.Outbox.{Asked, deleting, renaming, adding_favorite}
use system_sw_gui_project.Client.Served.{sent_all, perform_each, serve-sent}
use system_sw_gui_project.Tests.Serves.{Post, post, post-Serial, quit}

abbrev build : Text → Text → Text
build p name = p ++ b'/' ∷ name

abbrev asked : List Asked
asked =
    deleting (codes "/t") (codes "a")
    ∷ renaming (codes "/t") (codes "b") (codes "c")
    ∷ adding_favorite (codes "/t") (codes "l")
    ∷ []

abbrev mail : Post
mail = record { queue = sent_all build asked ++ quit ∷ []; unlinked = [] }

b-IsPart : IsPart (codes "/t/b")
b-IsPart = ((λ e. cc), (refl, (refl, (refl, (refl, tt)))))

c-IsPart : IsPart (codes "/t/c")
c-IsPart = ((λ e. cc), (refl, (refl, (refl, (refl, tt)))))

l-IsPart : IsPart (codes "/t/l")
l-IsPart = ((λ e. cc), (refl, (refl, (refl, (refl, tt)))))

link-IsPart : IsPart (codes "/tmp/link/l")
link-IsPart = (
  (λ e. cc),
  (refl, (refl, (refl, (refl, (refl, (refl, (refl, (refl, (refl, (refl, (refl, tt))))))))))),
)

serve-sent_example : serve post 4096 6 2 9 1 mail ≡ perform_each build post 4096 6 2 1 asked mail
unfolding is_quit str_eq
serve-sent_example =
    serve-sent build post 4096 6 2 1 (λ s. s.queue) post-Serial asked 9 quit [] mail
      (tt, ((refl, refl), (tt, tt)))
      (omega arith, ((b-IsPart, c-IsPart, omega arith), ((l-IsPart, link-IsPart, omega arith), tt)))
      (omega arith) refl refl
