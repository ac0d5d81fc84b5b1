-- ===== src/Version2/Paths.antt =====
-- convert_to_absolute and is_valid_path of dir_manage_ver2/manage_dir.c, with strtok call by call.
use system_sw_gui_project.Prelude.{
  ℕ, zero, suc, Bool, ◌&&◌, not, Option, none, some, [], ◌∷◌, ◌++◌, ◌==◌, ◌+◌, if◌then◌else◌, Text,
  codes, length, take,
}
use system_sw_gui_project.Libc.Strings.{str_eq, starts_with, strrchr}
use system_sw_gui_project.Libc.Strtok.{strtok}
use system_sw_gui_project.Run.{Run, pure, crash, call, ◌>>=◌, ◌>>◌}
use system_sw_gui_project.Shell.System.{System, complain}

-- BASE_PATH
abbrev pub home : Text
home = codes "/tmp/test"

abbrev pub is_separator : ℕ → Bool
is_separator c = c == b'/'

unfoldable pub joined_path : Text → Text → Text
joined_path current [] = current ++ b'/' ∷ []
joined_path current (c ∷ s) = if c == b'/' then home ++ c ∷ s else current ++ b'/' ∷ c ∷ s

-- *slash = '\0', if the last slash is not the first character.
abbrev pub end_at : Text → Option ℕ → Text
end_at path none = path
end_at path (some zero) = path
end_at path (some (suc i)) = take (suc i) path

unfoldable pub step : Text → Text → Text
step path token =
    if str_eq token (codes "..")
    then end_at path (strrchr path b'/')
    else if not (str_eq token []) && not (str_eq token (codes "."))
    then path ++ b'/' ∷ token
    else path

-- The while loop, from the token that strtok has returned.
unfoldable pub loop : ℕ → Text → Option (Text × Text) → Text
unfolding step
loop zero path next = path
loop (suc fuel) path none = path
loop (suc fuel) path (some (token, rest)) = loop fuel (step path token) (strtok is_separator rest)

-- One round more than the text has bytes.
unfoldable pub convert_to_absolute : Text → Text → Text
unfolding joined_path loop
convert_to_absolute current relative =
    let entire = joined_path current relative in
    loop (suc (length entire)) [] (strtok is_separator entire)

unfoldable pub is_valid_path : Text → Bool
is_valid_path path = starts_with path home

module _ (S : System) where
  abbrev pub result_of : Text → Text → Option Text → Run S.State Text
  result_of buffer absolute none = complain S "malloc" >> pure buffer
  result_of buffer absolute (some _) = pure absolute

  -- The function with its getcwd and malloc; a buffer that is not written keeps its text.
  unfoldable pub convert : Text → Text → Run S.State Text
  unfolding convert_to_absolute
  convert buffer relative = do
    current ← call S.getcwd
    entire ← call (S.malloc (length relative + length current + 3))
    result_of buffer (convert_to_absolute current relative) entire

  -- The same where the caller does not test its block.
  unfoldable pub convert_into : Option Text → Text → Run S.State Text
  unfolding convert
  convert_into none relative = convert [] relative >> crash
  convert_into (some block) relative = convert block relative
