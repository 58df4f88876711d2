-- ===== src/Account.antt =====
-- The page of the API keys: web/components/ApiKeysClient.tsx. What the requests come to is an
-- argument; toasts are kept in order.
pub mod Created
mod Tests
use polyquantlab.Common.{
  ℕ, String, str_eq, Bool, true, false, List, [], ◌∷◌, ◌++◌, Option, none, some, concat,
}
use polyquantlab.Strategy.Submit.{or_text, else_text, is_ok, failure_text}

pub record ApiKeyRow : Type 0 where
  pub api_key_id : String
  pub key_prefix : String
  pub label : Option String
  pub created_at : Option String
  pub last_used_at : Option String
  pub revoked_at : Option String

-- The fields of a reply that are read.
pub record Fields : Type 0 where
  pub keys : Option (List ApiKeyRow)
  pub key : Option String
  pub error : Option String

-- What a request comes to: an exception, or a status with JSON: unreadable, `null` or an object.
pub data Json : Type 0 where
  unreadable : (message : Option String) → Json
  null_json : Json
  object : Fields → Json

pub data Sent : Type 0 where
  crashed : (message : Option String) → Sent
  replied : (status : ℕ) → Json → Sent

pub data Toast : Type 0 where
  success error : String → Toast

pub record Client : Type 0 where
  pub keys : List ApiKeyRow
  pub label : String
  pub creating : Bool
  pub fresh_key : Option String
  pub toasts : List Toast

abbrev pub with_keys : List ApiKeyRow → Client → Client
with_keys ks c = record {
  keys = ks;
  label = c.label;
  creating = c.creating;
  fresh_key = c.fresh_key;
  toasts = c.toasts;
}

abbrev pub with_toast : Toast → Client → Client
with_toast t c = record {
  keys = c.keys;
  label = c.label;
  creating = c.creating;
  fresh_key = c.fresh_key;
  toasts = c.toasts ++ t ∷ [];
}

abbrev pub with_creating : Bool → Client → Client
with_creating b c = record {
  keys = c.keys;
  label = c.label;
  creating = b;
  fresh_key = c.fresh_key;
  toasts = c.toasts;
}

abbrev pub with_fresh : Option String → String → Client → Client
with_fresh key label c = record {
  keys = c.keys;
  label = label;
  creating = c.creating;
  fresh_key = key;
  toasts = c.toasts;
}

-- `body.keys ?? []`
abbrev pub or_no_keys : Option (List ApiKeyRow) → List ApiKeyRow
or_no_keys none = []
or_no_keys (some ks) = ks

-- What an `await` gives the code after it: the state, or an exception with its message.
pub data Awaited : Type 0 where
  done : Client → Awaited
  threw : (message : Option String) → Client → Awaited

-- `type_error` is the message of reading a field of `null`.
module _ (type_error : String) where
  abbrev pub refresh_body : Bool → Json → Client → Awaited
  refresh_body false b c = done c
  refresh_body true (unreadable m) c = threw m c
  refresh_body true null_json c = threw (some type_error) c
  refresh_body true (object f) c = done (with_keys (or_no_keys f.keys) c)

  -- `refresh`
  unfoldable pub refresh : Sent → Client → Awaited
  refresh (crashed m) c = threw m c
  refresh (replied status b) c = refresh_body (is_ok status) b c

  -- The end of a handler: its toast of success, or the one of its `catch`.
  abbrev pub settle : (what success_text : String) → Awaited → Client
  settle what success_text (done c) = with_toast (success success_text) c
  settle what success_text (threw m c) = with_toast (error (else_text (or_text m none) what)) c

  -- `body?.error || …`, where JSON that cannot be read is `{}`.
  abbrev pub error_of : Json → Option String
  error_of (object f) = or_text f.error none
  error_of _ = none

  abbrev pub created_toast : String
  created_toast = "Key created — copy it now, it won't be shown again."

  abbrev pub create_body : Json → Sent → Client → Client
  create_body (unreadable m) again c = settle "Create failed" created_toast (threw m c)
  create_body null_json again c = settle "Create failed" created_toast (threw (some type_error) c)
  create_body (object f) again c =
      settle "Create failed" created_toast (refresh again (with_fresh f.key "" c))

  abbrev pub create_ok : Bool → ℕ → Json → Sent → Client → Client
  create_ok false status b again c =
      with_toast (error (else_text (error_of b) (failure_text "Create failed" status))) c
  create_ok true status b again c = create_body b again c

  abbrev pub create_reply : Sent → Sent → Client → Client
  create_reply (crashed m) again c = settle "Create failed" created_toast (threw m c)
  create_reply (replied status b) again c = create_ok (is_ok status) status b again c

  abbrev pub create_unless : Bool → Sent → Sent → Client → Client
  create_unless true reply again c = c
  create_unless false reply again c =
      with_creating false
        (create_reply reply again (with_creating true (with_fresh none c.label c)))

  -- `createKey`: the reply to the request, and that to the list loaded again.
  unfoldable pub create_key : (reply again : Sent) → Client → Client
  create_key reply again c = create_unless c.creating reply again c

  -- `label || undefined`, the body of the request.
  abbrev pub create_label : Client → Option String
  create_label c = or_text (some c.label) none

  abbrev pub revoke_ok : Bool → ℕ → Json → Sent → Client → Client
  revoke_ok false status b again c =
      with_toast (error (else_text (error_of b) (failure_text "Revoke failed" status))) c
  revoke_ok true status b again c = settle "Revoke failed" "Key revoked" (refresh again c)

  -- `revokeKey`, which asks first.
  unfoldable pub revoke_key : (confirmed : Bool) → (reply again : Sent) → Client → Client
  revoke_key false reply again c = c
  revoke_key true (crashed m) again c = settle "Revoke failed" "Key revoked" (threw m c)
  revoke_key true (replied status b) again c = revoke_ok (is_ok status) status b again c

-- `copy`
abbrev pub copy : (written : Bool) → Client → Client
copy true c = with_toast (success "Copied to clipboard") c
copy false c = with_toast (error "Copy failed — select and copy manually") c
