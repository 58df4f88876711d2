-- ===== src/Forms/Replies.antt =====
-- What the forms make of a reply.
use polyquantlab.Common.{
  ℕ, ◌==◌, ◌||◌, ◌≡◌, refl, arith, String, str_eq, Bool, true, false, Option, none, some, [], ◌∷◌,
  concat,
}
use polyquantlab.Strategy.Submit.{Fields, or_text, first_if, is_ok}
use polyquantlab.Forms.{
  Json, unreadable, null_json, object, Sent, crashed, replied, Shown, error_toast, opened, job_page,
  job_reply, job_shown, refused,
}

-- Why a request has no job: an exception, a status of failure, JSON that cannot be read, or no id.
pub data NoJob : Sent → Type 0 where
  exception : {m : Option String} → NoJob (crashed m)
  failure : {status : ℕ} {b : Json} → is_ok status ≡ false → NoJob (replied status b)
  not_json : {status : ℕ} {m : Option String} → NoJob (replied status (unreadable m))
  null_object : {status : ℕ} → NoJob (replied status null_json)
  no_id : {status : ℕ} {f : Fields} → f.job_id ≡ none → NoJob (replied status (object f))
  empty_id :
      {status : ℕ} {f : Fields} (id : String)
      → f.job_id ≡ some id
      → str_eq id "" ≡ true
      → NoJob (replied status (object f))

-- What is shown fits the reply: the page of its job, or one error where there is none.
pub data Fits (encode : String → String) (folder : String) : Sent → Shown → Type 0 where
  page :
      {status : ℕ} {f : Fields} (id : String)
      → is_ok status ≡ true
      → f.job_id ≡ some id
      → str_eq id "" ≡ false
      → Fits encode folder
          (replied status (object f))
          (opened [] (concat (folder ∷ encode id ∷ [])))
  complaint : {r : Sent} (text : String) → NoJob r → Fits encode folder r (error_toast text)

accepted : (status : ℕ) (b : Bool) → (is_ok status || status == 202) ≡ b → is_ok status ≡ b
accepted status b h = ground arith

module _ (encode : String → String) (folder : String) where
  first_if-Fits :
      (status : ℕ) (f : Fields) (id : String) (b : Bool)
      → is_ok status ≡ true
      → f.job_id ≡ some id
      → str_eq id "" ≡ b
      → Fits encode folder (replied status (object f)) (job_page encode folder (first_if b id none))
  first_if-Fits status f id true a e h = complaint _ (empty_id id e h)
  first_if-Fits status f id false a e h = page id a e h

  or_text-Fits :
      (status : ℕ) (f : Fields) (o : Option String)
      → is_ok status ≡ true
      → f.job_id ≡ o
      → Fits encode folder (replied status (object f)) (job_page encode folder (or_text o none))
  or_text-Fits status f none a e = complaint _ (no_id e)
  or_text-Fits status f (some id) a e = first_if-Fits status f id _ a e refl

  refused-Fits :
      (what : String) (status : ℕ) (b : Json)
      → is_ok status ≡ false
      → Fits encode folder (replied status b) (refused b what status)
  refused-Fits what status (unreadable m) a = complaint _ (failure a)
  refused-Fits what status null_json a = complaint _ (failure a)
  refused-Fits what status (object f) a = complaint _ (failure a)

  job_reply-Fits :
      (c : Bool) (status : ℕ) (b : Json)
      → is_ok status ≡ c
      → Fits encode folder (replied status b) (job_reply encode folder c status b)
  job_reply-Fits true status (unreadable m) a = complaint _ not_json
  job_reply-Fits true status null_json a = complaint _ null_object
  job_reply-Fits true status (object f) a = or_text-Fits status f f.job_id a refl
  job_reply-Fits false status b a = refused-Fits "Submit failed" status b a

-- The forms of a sweep and of a backtest open a page only for a reply that is ok and has an id that
-- is not empty, and it is the page of this id; every other reply gives one error and no page.
pub job_shown-Fits :
    (encode : String → String) (folder : String) (r : Sent)
    → Fits encode folder r (job_shown encode folder r)
unfolding job_shown
job_shown-Fits encode folder (crashed m) = complaint _ exception
job_shown-Fits encode folder (replied status b) =
    job_reply-Fits encode folder _ status b (accepted status _ refl)
