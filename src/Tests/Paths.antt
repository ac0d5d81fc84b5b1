-- ===== src/Tests/Paths.antt =====
-- Inputs for the theorems on custom_shell/path_utils.c.
use system_sw_gui_project.Prelude.{
  ◌≡◌, ◌↔◌, refl, true, ◌+◌, ◌≤◌, List, [], ◌∷◌, ◌++◌, Text, codes, arith, length,
}
use system_sw_gui_project.Libc.Strings.{str_eq, strrchr, tokens, split_tokens}
use system_sw_gui_project.Shell.Paths.{
  base_path, is_slash, is_valid_path, entire_path, convert_to_absolute, add_tokens, add_token,
  cut_last,
}
use system_sw_gui_project.Shell.Paths.Stack.{render, resolve}
use system_sw_gui_project.Shell.Paths.Canonical.{
  base_stack, base_stack-IsName, start_stack, convert_to_absolute-resolve,
}
use system_sw_gui_project.Shell.Paths.Confine.{
  IsInside, NoUp, is_valid_path-render, sibling_accepted, absolute-IsInside,
}
use system_sw_gui_project.Run.{done}
use system_sw_gui_project.Shell.System.{convert}
use system_sw_gui_project.Tests.Systems.{inert}
use system_sw_gui_project.Shell.Paths.Bounds.{bufsiz, convert_to_absolute_fits}

convert_run :
    convert_to_absolute (codes "/tmp/test/a") (codes "../b/./c//d") ≡ codes "/tmp/test/b/c/d"
unfolding convert_to_absolute entire_path tokens split_tokens add_tokens add_token str_eq cut_last
    strrchr
convert_run = refl

-- `..` does not drop the first name.
convert_root : convert_to_absolute base_path (codes "../../../x") ≡ codes "/tmp/x"
unfolding convert_to_absolute entire_path tokens split_tokens add_tokens add_token str_eq cut_last
    strrchr
convert_root = refl

convert_to_absolute-resolve_example :
    convert_to_absolute (render base_stack) (codes "a/../b")
    ≡ render (resolve (start_stack base_stack (codes "a/../b")) (tokens is_slash (codes "a/../b")))
convert_to_absolute-resolve_example =
    convert_to_absolute-resolve base_stack (codes "a/../b") base_stack-IsName

is_valid_path-render_example : (is_valid_path (render base_stack) ≡ true) ↔ (
    (top : List Text) × (w : Text) × (base_stack ≡ top ++ ((codes "test" ++ w) ∷ codes "tmp" ∷ [])))
is_valid_path-render_example = is_valid_path-render base_stack base_stack-IsName

sibling_accepted_example :
    let path = convert_to_absolute base_path (codes "../test2") in
    (path ≡ codes "/tmp/test2") × (is_valid_path path ≡ true) × ¬ (IsInside path)
sibling_accepted_example = sibling_accepted b'2' [] (refl, tt)

slash_ab_NoUp : NoUp (tokens is_slash (codes "a/b"))
unfolding tokens split_tokens str_eq
slash_ab_NoUp = (refl, (refl, tt))

absolute-IsInside_example :
    let path = convert_to_absolute (codes "/elsewhere") (codes "/a/b") in
    IsInside path × (is_valid_path path ≡ true)
absolute-IsInside_example = absolute-IsInside (codes "/elsewhere") (codes "a/b") slash_ab_NoUp

convert_to_absolute_fits_example :
    ((convert (inert Unit) [] (codes "a") tt).0 ≡ done (convert_to_absolute base_path (codes "a")))
    × (length (convert_to_absolute base_path (codes "a"))
        ≤ length (entire_path base_path (codes "a")))
    × (length (convert_to_absolute base_path (codes "a")) + 1 ≤ bufsiz)
convert_to_absolute_fits_example =
    convert_to_absolute_fits (inert Unit) [] (codes "tmp/test") (codes "a") tt refl
      (λ n u h. ([], refl)) (omega arith) (omega arith)
