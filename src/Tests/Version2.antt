-- ===== src/Tests/Version2.antt =====
-- The earlier version of the shell at concrete inputs.
use system_sw_gui_project.Prelude.{◌≡◌, true, none, [], ◌∷◌, codes, arith}
use system_sw_gui_project.Shell
use system_sw_gui_project.Shell.System.{System}
use system_sw_gui_project.Version2.Paths.{convert_to_absolute}
use system_sw_gui_project.Version2.Chmod.{chmod_format, cmd_chmod}
use system_sw_gui_project.Version2.Commands.{cmd_rename}
use system_sw_gui_project.Version2.Streams.{cmd_cat}
use system_sw_gui_project.Version2.Main.{main}
use system_sw_gui_project.Version2.Equal.Paths.{convert_to_absolute_same}
use system_sw_gui_project.Version2.Equal.Modes.{IsCString, chmod_format_same}
use system_sw_gui_project.Version2.Equal.Commands.{commands_same}
use system_sw_gui_project.Version2.Confines.Main.{main_confined}
use system_sw_gui_project.Tests.Systems.{inert}
use system_sw_gui_project.Tests.Sandbox.{recorder, recorder-Confines, OnlyValid, session}

convert_to_absolute_same_example :
    convert_to_absolute (codes "/tmp/test") (codes "a/../b")
    ≡ Shell.Paths.convert_to_absolute (codes "/tmp/test") (codes "a/../b")
convert_to_absolute_same_example = convert_to_absolute_same (codes "/tmp/test") (codes "a/../b")

g_plus_w-IsCString : IsCString (codes "g+w")
g_plus_w-IsCString =
    ((λ e. omega (arith, e)), ((λ e. omega (arith, e)), ((λ e. omega (arith, e)), tt)))

chmod_format_same_example :
    chmod_format true (codes "g+w") 0o644 ≡ Shell.Chmod.chmod_format true (codes "g+w") 0o644
chmod_format_same_example = chmod_format_same true (codes "g+w") 0o644 g_plus_w-IsCString

abbrev idle : System
idle = inert Unit

commands_same_example :
    (cmd_rename idle (codes "chmod" ∷ codes "g+w" ∷ codes "f" ∷ [])
      ≡ Shell.Commands.cmd_rename idle (codes "chmod" ∷ codes "g+w" ∷ codes "f" ∷ []))
    × (cmd_cat idle 3 (codes "chmod" ∷ codes "g+w" ∷ codes "f" ∷ [])
        ≡ Shell.Streams.cmd_cat idle 3 (codes "chmod" ∷ codes "g+w" ∷ codes "f" ∷ []))
    × (cmd_chmod idle (codes "chmod" ∷ codes "g+w" ∷ codes "f" ∷ [])
        ≡ Shell.Chmod.cmd_chmod idle (codes "chmod" ∷ codes "g+w" ∷ codes "f" ∷ []))
commands_same_example =
    commands_same idle 3 (codes "chmod" ∷ codes "g+w" ∷ codes "f" ∷ []) g_plus_w-IsCString

main_confined_example : OnlyValid (main recorder (λ p r. (none, r)) 10 8 session).1
main_confined_example =
    main_confined recorder OnlyValid recorder-Confines (λ p r. (none, r))
      (λ p. record { at = λ s h. h }) 10 8 session tt
