-- ===== src/Paper/Lists.antt =====
-- The lists that load themselves: `PaperStrategiesList` with its buttons, and `SavedBacktestsList`.
use polyquantlab.Common.{
  ℕ, String, Bool, true, false, List, [], ◌∷◌, Option, none, some, concat, show_nat,
}
use polyquantlab.Strategy.Submit.{or_text, else_text, is_ok, failure_text}
use polyquantlab.Paper.Page.{Reading, unreadable, read, Reply}

-- What a list shows. `A` is a row; before the first reply there are no rows.
pub record Listing (A : Type 0) : Type 0 where
  pub rows : Option (List A)
  pub error : Option String

module _ {A : Type 0} where
  abbrev pub or_no_rows : Option (List A) → List A
  or_no_rows none = []
  or_no_rows (some rows) = rows

  abbrev pub list_error : String → Listing A → Listing A
  list_error text l = record { rows = l.rows; error = some text }

  abbrev pub refresh_ok : Bool → ℕ → Reading (Option (List A)) → Listing A → Listing A
  refresh_ok false status b l = list_error (failure_text "Failed" status) l
  refresh_ok true status (unreadable m) l =
      list_error (else_text (or_text m none) "Network error") l
  refresh_ok true status (read rows) l = record { rows = some (or_no_rows rows); error = none }

  -- `refresh` of `PaperStrategiesList`; `none` is an exception of `fetch` without a message.
  unfoldable pub refresh_list :
      (fetch : Option String × Option (Reply (Option (List A)))) → Listing A → Listing A
  refresh_list (m, none) l = list_error (else_text (or_text m none) "Network error") l
  refresh_list (m, some r) l = refresh_ok (is_ok r.status) r.status r.body l

  -- `load` of `SavedBacktestsList`, which throws at a status of failure, and its view.
  abbrev pub load_ok : Bool → ℕ → Reading (Option (List A)) → Listing A → Listing A
  load_ok false status b l = list_error (concat ("list " ∷ show_nat status ∷ [])) l
  load_ok true status (unreadable m) l = list_error (else_text (or_text m none) "load failed") l
  load_ok true status (read rows) l = record { rows = some (or_no_rows rows); error = none }

  unfoldable pub load :
      (fetch : Option String × Option (Reply (Option (List A)))) → Listing A → Listing A
  load (m, none) l = list_error (else_text (or_text m none) "load failed") l
  load (m, some r) l = load_ok (is_ok r.status) r.status r.body l

-- A request that a button sends.
pub data Request : Type 0 where
  patch delete : (path : String) → Request

-- What a button does: the requests it sends, its toast, and whether the list is loaded again. An
-- exception of `fetch` is not caught, and gives no toast.
pub record Pressed : Type 0 where
  pub requests : List Request
  pub error_toast : Option String
  pub success_toast : Option String
  pub reload : Bool

abbrev pub pressed_if : Bool → Request → (what : String) → (done : String) → ℕ → Pressed
pressed_if true r what done status = record {
  requests = r ∷ [];
  error_toast = none;
  success_toast = some done;
  reload = true;
}
pressed_if false r what done status = record {
  requests = r ∷ [];
  error_toast = some (failure_text (concat (what ∷ " failed" ∷ [])) status);
  success_toast = none;
  reload = false;
}

abbrev pub pressed : Request → (what done : String) → Option ℕ → Pressed
pressed r what done none = record {
  requests = r ∷ [];
  error_toast = none;
  success_toast = none;
  reload = false;
}
pressed r what done (some status) = pressed_if (is_ok status) r what done status

module _ (encode : String → String) (answer : Request → Option ℕ) where
  -- `setActive`
  unfoldable pub set_active : String → Bool → Pressed
  set_active id true =
      let r = patch (concat ("/api/paper/strategies/" ∷ encode id ∷ "/resume" ∷ [])) in
      pressed r "Resume" "Resumed" (answer r)
  set_active id false =
      let r = patch (concat ("/api/paper/strategies/" ∷ encode id ∷ "/pause" ∷ [])) in
      pressed r "Pause" "Paused" (answer r)

  -- `remove`, which asks first.
  unfoldable pub remove : (confirmed : Bool) → String → Pressed
  remove false id = record {
    requests = [];
    error_toast = none;
    success_toast = none;
    reload = false;
  }
  remove true id =
      let r = delete (concat ("/api/paper/strategies/" ∷ encode id ∷ [])) in
      pressed r "Delete" "Deleted" (answer r)
