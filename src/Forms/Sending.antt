-- ===== src/Forms/Sending.antt =====
-- A form that is edited and sent: `submit` with its flag `submitting`, and what the user does
-- meanwhile. `F` is the state of the form, `E` an edit of it, and `P` a request.
use polyquantlab.Common.{
  under_way, counted, ℕ, suc, ◌+◌, ◌≡◌, refl, arith, String, Bool, true, false, List, [], ◌∷◌,
  Option, none, some, length, All,
}
use polyquantlab.Forms.{Sent, Shown}

pub record Page (F P : Type 0) : Type 0 where
  pub form : F
  pub submitting : Bool
  pub posts : List P
  pub shown : List Shown
  pub settled : ℕ

module _ {F E P : Type 0} (edit : E → F → F) (guard : F → Option String) (body : F → P)
    (end : Sent → Shown) where
  -- The guards of `submit`, and `setSubmitting(true)` with the request.
  abbrev pub send_if : Option String → Page F P → Page F P
  send_if (some complaint) s = record {
    form = s.form;
    submitting = false;
    posts = s.posts;
    shown = Shown.error_toast complaint ∷ s.shown;
    settled = s.settled;
  }
  send_if none s = record {
    form = s.form;
    submitting = true;
    posts = body s.form ∷ s.posts;
    shown = s.shown;
    settled = s.settled;
  }

  abbrev pub submit_if : Bool → Page F P → Page F P
  submit_if true s = s
  submit_if false s = send_if (guard s.form) s

  -- `submit` up to its request.
  unfoldable pub submit : Page F P → Page F P
  submit s = submit_if s.submitting s

  -- The rest of `submit`, when the request is settled: the toast or the page, and `finally`.
  unfoldable pub settle : Sent → Page F P → Page F P
  settle r s = record {
    form = s.form;
    submitting = false;
    posts = s.posts;
    shown = end r ∷ s.shown;
    settled = suc s.settled;
  }

  abbrev pub with_form : F → Page F P → Page F P
  with_form f s = record {
    form = f;
    submitting = s.submitting;
    posts = s.posts;
    shown = s.shown;
    settled = s.settled;
  }

  -- One step: the user edits the form or submits it, or the request that is under way is settled.
  pub data Step : Page F P → Page F P → Type 0 where
    edits : (e : E) (s : Page F P) → Step s (with_form (edit e s.form) s)
    submits : (s : Page F P) → Step s (submit s)
    settles : (r : Sent) (s : Page F P) → s.submitting ≡ true → Step s (settle r s)

  pub data Reachable (f : F) : Page F P → Type 0 where
    start :
        Reachable f (record { form = f; submitting = false; posts = []; shown = []; settled = 0 })
    step : {s t : Page F P} → Reachable f s → Step s t → Reachable f t

-- What holds of a page: of its form, of every request, and of how many are under way.
pub record IsSound {F P : Type 0} (I : F → Type 0) (Q : P → Type 0) (s : Page F P) : Type 0 where
  pub form : I s.form
  pub posts : All Q s.posts
  pub one : length s.posts ≡ s.settled + under_way s.submitting

module _ {F E P : Type 0} (edit : E → F → F) (guard : F → Option String) (body : F → P)
    (end : Sent → Shown) (I : F → Type 0) (Q : P → Type 0)
    (edit-I : (e : E) (f : F) → I f → I (edit e f))
    (body-Q : (f : F) → I f → guard f ≡ none → Q (body f)) where
  send_if-IsSound :
      (o : Option String) (s : Page F P)
      → guard s.form ≡ o
      → s.submitting ≡ false
      → IsSound I Q s
      → IsSound I Q (send_if edit guard body end o s)
  send_if-IsSound (some c) s e b k = record {
    form = k.form;
    posts = k.posts;
    one =
        let e : length s.posts ≡ s.settled + under_way false = counted s.settled b k.one in
        omega arith;
  }
  send_if-IsSound none s e b k = record {
    form = k.form;
    posts = (body-Q s.form k.form e, k.posts);
    one =
        let e : length s.posts ≡ s.settled + under_way false = counted s.settled b k.one in
        omega arith;
  }

  submit_if-IsSound :
      (b : Bool) (s : Page F P)
      → s.submitting ≡ b
      → IsSound I Q s
      → IsSound I Q (submit_if edit guard body end b s)
  submit_if-IsSound true s e k = k
  submit_if-IsSound false s e k = send_if-IsSound (guard s.form) s refl e k

  Step-IsSound : {s t : Page F P} → IsSound I Q s → Step edit guard body end s t → IsSound I Q t
  unfolding submit settle
  Step-IsSound k (edits e s) = record {
    form = edit-I e s.form k.form;
    posts = k.posts;
    one = k.one;
  }
  Step-IsSound k (submits s) = submit_if-IsSound s.submitting s refl k
  Step-IsSound k (settles r s b) = record {
    form = k.form;
    posts = k.posts;
    one =
        let e : length s.posts ≡ s.settled + under_way true = counted s.settled b k.one in
        omega arith;
  }

  -- From a form that is right, every page that can be reached is sound.
  pub reachable-IsSound :
      {f : F} {s : Page F P} → I f → Reachable edit guard body end f s → IsSound I Q s
  reachable-IsSound i start = record { form = i; posts = tt; one = refl }
  reachable-IsSound i (step r t) = Step-IsSound (reachable-IsSound i r) t
