-- ===== src/Account/Tests.antt =====
-- The page of the keys on concrete replies.
use polyquantlab.Common.{◌≡◌, refl, false, [], ◌∷◌, none, some}
use polyquantlab.Account.{object, Sent, crashed, replied, Client, create_key, refresh, error}
use polyquantlab.Account.Created.{IsCreated, create_key-IsCreated}

abbrev a_client : Client
a_client = record { keys = []; label = "bot"; creating = false; fresh_key = none; toasts = [] }

abbrev a_key : Sent
a_key = replied 201 (object (record { keys = none; key = some "pq_1"; error = none }))

-- The key is on show although the list cannot be loaded again, and the toast is one of failure.
shown_anyway : create_key "" a_key (crashed none) a_client ≡ record {
  keys = [];
  label = "";
  creating = false;
  fresh_key = some "pq_1";
  toasts = error "Create failed" ∷ [];
}
unfolding create_key refresh
shown_anyway = refl

create_key-IsCreated_example :
    IsCreated a_client a_key (create_key "" a_key (crashed none) a_client)
create_key-IsCreated_example = create_key-IsCreated "" a_key (crashed none) a_client
