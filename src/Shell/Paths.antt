-- ===== src/Shell/Paths.antt =====
-- custom_shell/path_utils.c: a path as the user writes it becomes an absolute path, and the
-- shell accepts it if it begins with the bytes of BASE_PATH (custom_shell/config.c).
pub mod Stack
pub mod Canonical
pub mod Confine
pub mod Bounds
use system_sw_gui_project.Prelude.{
  ℕ, zero, suc, Bool, ◌&&◌, not, Option, none, some, List, [], ◌∷◌, ◌++◌, ◌==◌, if◌then◌else◌, Text,
  codes, take,
}
use system_sw_gui_project.Libc.Strings.{str_eq, starts_with, strrchr, tokens}

-- BASE_PATH
abbrev pub base_path : Text
base_path = codes "/tmp/test"

abbrev pub is_slash : ℕ → Bool
is_slash c = c == b'/'

-- `*relative_path == '/'`; the empty text begins with the terminating zero.
unfoldable pub is_absolute : Text → Bool
is_absolute [] = 0 == b'/'
is_absolute (c ∷ s) = c == b'/'

-- The text that the loop goes over.
unfoldable pub entire_path : Text → Text → Text
unfolding is_absolute
entire_path current relative =
    if is_absolute relative then base_path ++ relative else current ++ b'/' ∷ relative

unfoldable pub cut_at : Text → Option ℕ → Text
cut_at absolute none = absolute
cut_at absolute (some zero) = absolute
cut_at absolute (some (suc i)) = take (suc i) absolute

-- `..`: cut at the last slash, unless that is the first character.
unfoldable pub cut_last : Text → Text
unfolding cut_at
cut_last absolute = cut_at absolute (strrchr absolute b'/')

-- One round of the loop.
unfoldable pub add_token : Text → Text → Text
add_token absolute token =
    if str_eq token (codes "..")
    then cut_last absolute
    else if not (str_eq token []) && not (str_eq token (codes "."))
    then absolute ++ b'/' ∷ token
    else absolute

unfoldable pub add_tokens : Text → List Text → Text
add_tokens absolute [] = absolute
add_tokens absolute (token ∷ ts) = add_tokens (add_token absolute token) ts

unfoldable pub convert_to_absolute : Text → Text → Text
convert_to_absolute current relative =
    add_tokens [] (tokens is_slash (entire_path current relative))

unfoldable pub is_valid_path : Text → Bool
is_valid_path path = starts_with path base_path
