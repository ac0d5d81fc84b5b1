-- ===== src/Client/Dialogs/Unselected.antt =====
-- What the actions and confirmed dialogs do while no file is selected.
use system_sw_gui_project.Prelude.{ℕ, String, Bool, true, false, not, none, ◌≡◌}
use system_sw_gui_project.Run.{Run, ◌>>=◌, ◌>>◌, when, pure}
use system_sw_gui_project.Run.Keeps.{KeepsOp}
use system_sw_gui_project.Client.Session.{
  Desktop, UserData, Session, Timer, read_timer, outside, say, change,
}
use system_sw_gui_project.Client.Send.{start_backend_check}
use system_sw_gui_project.Client.Callbacks.{
  check_and_close, close_and_check, rename_response, on_dialog_response, delete_response,
  on_delete_response, move_response, on_move_dialog_response, copy_response,
  on_copy_dialog_response, add_favorite, on_add_to_favorites_action,
}
use system_sw_gui_project.Client.Widgets.{Widgets}
use system_sw_gui_project.Client.Dialogs.{
  rename_dialog, on_rename_action, delete_dialog, on_delete_action, transfer_dialog, on_move_action,
  on_copy_action, chmod_dialog, on_chmod_action,
}

module _ (D : Desktop) (P : D.State → Type 0) (log : (t : String) → KeepsOp P (D.log t))
    (close : KeepsOp P D.close) (timer : (n : ℕ) (t : Timer) → KeepsOp P (D.timeout_add n t)) where
  -- P holds behind the run, begun with these data.
  abbrev Leaves : UserData → Run (Session D) (Unit {0}) → Type 0
  Leaves u m = (s : D.State) → P s → P (m (u, s)).1.1

  say-Leaves : (u : UserData) (t : String) → Leaves u (say D t)
  say-Leaves u t s h = (log t).at s h

  scheduled-Leaves :
      (b : Bool) (u : UserData)
      → Leaves u (
          when (not b) (
            outside D (D.timeout_add 1000 read_timer)
            >> change D (λ v. record v { is_check_running = true })))
  unfolding ◌>>=◌ pure
  scheduled-Leaves true u s h = h
  scheduled-Leaves false u s h = (timer 1000 read_timer).at s h

  check-Leaves : (u : UserData) → Leaves u (start_backend_check D)
  unfolding start_backend_check ◌>>=◌
  check-Leaves u s h = scheduled-Leaves u.is_check_running u s h

  -- The poll leaves the data alone but for its flag, and closing comes behind it.
  close_and_check-Leaves : (u : UserData) → Leaves u (close_and_check D)
  unfolding close_and_check ◌>>=◌
  close_and_check-Leaves u s h = check-Leaves u (D.close s).1 (close.at s h)

  close-scheduled :
      (b : Bool) (u : UserData)
      → Leaves u (
          when (not b) (
            outside D (D.timeout_add 1000 read_timer)
            >> change D (λ v. record v { is_check_running = true }))
          >> outside D D.close)
  unfolding ◌>>=◌ pure
  close-scheduled true u s h = close.at s h
  close-scheduled false u s h = close.at _ ((timer 1000 read_timer).at s h)

  check_and_close-Leaves : (u : UserData) → Leaves u (check_and_close D)
  unfolding check_and_close start_backend_check ◌>>=◌
  check_and_close-Leaves u s h = close-scheduled u.is_check_running u s h

  rename_response-Leaves : (ok : Bool) (u : UserData) → Leaves u (rename_response D ok none)
  unfolding rename_response
  rename_response-Leaves true = check_and_close-Leaves
  rename_response-Leaves false = check_and_close-Leaves

  delete_response-Leaves : (ok : Bool) (u : UserData) → Leaves u (delete_response D ok none)
  unfolding delete_response
  delete_response-Leaves true = check_and_close-Leaves
  delete_response-Leaves false = check_and_close-Leaves

  move_response-Leaves : (ok : Bool) (u : UserData) → Leaves u (move_response D ok none)
  unfolding move_response
  move_response-Leaves true = close_and_check-Leaves
  move_response-Leaves false = close_and_check-Leaves

  copy_response-Leaves : (ok : Bool) (u : UserData) → Leaves u (copy_response D ok none)
  unfolding copy_response
  copy_response-Leaves true = close_and_check-Leaves
  copy_response-Leaves false = close_and_check-Leaves

  module _ (W : Widgets D) where
    -- While no file is selected: the actions for renaming, deleting, moving, copying, changing a
    -- mode and adding to the favorites, and the dialogs of the first four, confirmed or not, keep
    -- each property of the system that logging, closing a dialog and scheduling a timer keep.
    pub unselected_quiet :
        (u : UserData) (s : D.State) (ok : Bool)
        → u.selected_file_info ≡ none
        → P s
        → (P (on_rename_action D W (u, s)).1.1
            × P (on_delete_action D W (u, s)).1.1
            × P (on_move_action D W (u, s)).1.1
            × P (on_copy_action D W (u, s)).1.1
            × P (on_chmod_action D W (u, s)).1.1
            × P (on_add_to_favorites_action D (u, s)).1.1)
          × (P (on_dialog_response D ok (u, s)).1.1
              × P (on_delete_response D ok (u, s)).1.1
              × P (on_move_dialog_response D ok (u, s)).1.1
              × P (on_copy_dialog_response D ok (u, s)).1.1)
    unfolding on_rename_action rename_dialog on_delete_action delete_dialog on_move_action
        on_copy_action transfer_dialog on_chmod_action chmod_dialog on_add_to_favorites_action
        add_favorite on_dialog_response on_delete_response on_move_dialog_response
        on_copy_dialog_response ◌>>=◌
    unselected_quiet u s ok e h = (
      (
        rw e (say-Leaves u _ s h),
        rw e (say-Leaves u _ s h),
        rw e (say-Leaves u _ s h),
        rw e (say-Leaves u _ s h),
        rw e (say-Leaves u _ s h),
        rw e (say-Leaves u _ s h),
      ),
      (
        rw e (rename_response-Leaves ok _ s h),
        rw e (delete_response-Leaves ok _ s h),
        rw e (move_response-Leaves ok _ s h),
        rw e (copy_response-Leaves ok _ s h),
      ),
    )
