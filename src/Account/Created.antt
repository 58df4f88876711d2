-- ===== src/Account/Created.antt =====
-- How the creation of a key ends.
use polyquantlab.Common.{ℕ, ◌≡◌, refl, String, Bool, true, false, [], ◌∷◌, ◌++◌, Option, none}
use polyquantlab.Strategy.Submit.{is_ok}
use polyquantlab.Account.{
  Fields, Json, unreadable, null_json, object, Sent, crashed, replied, Toast, error, Client,
  with_toast, with_creating, with_fresh, refresh_body, refresh, settle, create_ok, create_reply,
  create_unless, create_key,
}

-- Why a reply has no key to show: an exception, a status of failure, or JSON that cannot be read or is
-- `null`.
pub data NoKey : Sent → Type 0 where
  exception : {m : Option String} → NoKey (crashed m)
  failure : {status : ℕ} {b : Json} → is_ok status ≡ false → NoKey (replied status b)
  not_json : {status : ℕ} {m : Option String} → NoKey (replied status (unreadable m))
  null_object : {status : ℕ} → NoKey (replied status null_json)

-- How a creation ends, from the state `c` with the reply: nothing happens while another is under way;
-- else the key of a reply that is ok is on show, and the label empty; or, where the reply has none,
-- there is an error, no key on show, and the label and the list are as they were.
pub data IsCreated (c : Client) : Sent → Client → Type 0 where
  ignored : {r : Sent} → c.creating ≡ true → IsCreated c r c
  shown :
      {status : ℕ} {f : Fields} {d : Client} (t : Toast)
      → c.creating ≡ false
      → is_ok status ≡ true
      → d.creating ≡ false
      → d.fresh_key ≡ f.key
      → d.label ≡ ""
      → d.toasts ≡ c.toasts ++ t ∷ []
      → IsCreated c (replied status (object f)) d
  refused :
      {r : Sent} {d : Client} (text : String)
      → c.creating ≡ false
      → NoKey r
      → d.creating ≡ false
      → d.fresh_key ≡ none
      → d.label ≡ c.label
      → d.keys ≡ c.keys
      → d.toasts ≡ c.toasts ++ error text ∷ []
      → IsCreated c r d

module _ (type_error : String) (c : Client) (free : c.creating ≡ false) where
  abbrev begun : Client
  begun = with_creating true (with_fresh none c.label c)

  refused_with :
      (r : Sent) (text : String)
      → NoKey r
      → IsCreated c r (with_creating false (with_toast (error text) begun))
  refused_with r text h = refused text free h refl refl refl refl refl

  -- Loading the list again changes the list alone.
  shown_after :
      (status : ℕ) (f : Fields)
      → is_ok status ≡ true
      → (ok : Bool) (b : Json)
      → IsCreated c (replied status (object f)) (
          with_creating false (
            settle type_error "Create failed" "Key created — copy it now, it won't be shown again."
              (refresh_body type_error ok b (with_fresh f.key "" begun))))
  shown_after status f e false b = shown _ free e refl refl refl refl
  shown_after status f e true (unreadable m) = shown _ free e refl refl refl refl
  shown_after status f e true null_json = shown _ free e refl refl refl refl
  shown_after status f e true (object g) = shown _ free e refl refl refl refl

  shown_sent :
      (status : ℕ) (f : Fields)
      → is_ok status ≡ true
      → (again : Sent)
      → IsCreated c (replied status (object f)) (
          with_creating false (
            settle type_error "Create failed" "Key created — copy it now, it won't be shown again."
              (refresh type_error again (with_fresh f.key "" begun))))
  unfolding refresh
  shown_sent status f e (crashed m) = shown _ free e refl refl refl refl
  shown_sent status f e (replied s b) = shown_after status f e (is_ok s) b

  create_ok-IsCreated :
      (ok : Bool) (status : ℕ) (b : Json) (again : Sent)
      → is_ok status ≡ ok
      → IsCreated c
          (replied status b)
          (with_creating false (create_ok type_error ok status b again begun))
  create_ok-IsCreated false status b again e = refused_with _ _ (failure e)
  create_ok-IsCreated true status (unreadable m) again e = refused_with _ _ not_json
  create_ok-IsCreated true status null_json again e = refused_with _ _ null_object
  create_ok-IsCreated true status (object f) again e = shown_sent status f e again

  create_reply-IsCreated :
      (reply again : Sent)
      → IsCreated c reply (with_creating false (create_reply type_error reply again begun))
  create_reply-IsCreated (crashed m) again = refused_with _ _ exception
  create_reply-IsCreated (replied status b) again =
      create_ok-IsCreated (is_ok status) status b again refl

create_unless-IsCreated :
    (type_error : String) (c : Client) (b : Bool) (reply again : Sent)
    → c.creating ≡ b
    → IsCreated c reply (create_unless type_error b reply again c)
create_unless-IsCreated type_error c true reply again e = ignored e
create_unless-IsCreated type_error c false reply again e =
    create_reply-IsCreated type_error c e reply again

-- Whatever the replies are, creating a key ends in one of three ways. While another creation is under
-- way, nothing changes. Else, if the reply is ok and an object, its key is on show, the label empty,
-- the button free and there is one toast more, also if loading the list again fails. Else, for an
-- exception, a status of failure, unreadable JSON or `null`, there is one error more, no key on show,
-- the button free, and the label and the list are as before.
pub create_key-IsCreated :
    (type_error : String) (reply again : Sent) (c : Client)
    → IsCreated c reply (create_key type_error reply again c)
unfolding create_key
create_key-IsCreated type_error reply again c =
    create_unless-IsCreated type_error c c.creating reply again refl
