-- ===== src/Tests/Version1.antt =====
-- The first version of the shell at concrete inputs.
use system_sw_gui_project.Prelude.{◌≡◌, refl, none, codes}
use system_sw_gui_project.Version1.Commands.{octal}
use system_sw_gui_project.Version1.Main.{main}
use system_sw_gui_project.Version1.Confines.{first_version_confined}
use system_sw_gui_project.Tests.Sandbox.{recorder, recorder-Confines, OnlyValid, session}

octal_run : octal 0o100644 ≡ codes "100644"
unfolding octal
octal_run = refl

first_version_confined_example : OnlyValid (main recorder (λ p r. (none, r)) 8 session).1
first_version_confined_example =
    first_version_confined recorder OnlyValid recorder-Confines (λ p r. (none, r))
      (λ p. record { at = λ s h. h }) 8 session tt
