-- ===== src/Scrubber/Book.antt =====
-- The order book that the scrubber shows: the delayed fetch of web/components/MarketDetail.tsx.
use polyquantlab.Common.{
  ℕ, String, Bool, true, false, List, [], ◌∷◌, Option, none, some, get_elem?, erase_idx, concat,
}
use polyquantlab.Strategy.Submit.{is_ok}

-- The state: the index of the scrubber, the book fetched for it, the flag, the time that the timer
-- waits to ask for, and the times that are asked for. `B` is a book.
pub record Scrub (B : Type 0) : Type 0 where
  pub index : Option ℕ
  pub book : Option B
  pub scrubbing : Bool
  pub timer : Option String
  pub asked : List String

-- A reply: an exception, or a status with a body, which is a book if it has both sides.
pub data BookReply (B : Type 0) : Type 0 where
  crashed : BookReply B
  replied : (status : ℕ) → Option B → BookReply B

module _ {B : Type 0} where
  abbrev pub initial_scrub : Scrub B
  initial_scrub = record { index = none; book = none; scrubbing = false; timer = none; asked = [] }

  abbrev pub with_timer : Option ℕ → Option B → Option String → Scrub B → Scrub B
  with_timer i b t s = record {
    index = i;
    book = b;
    scrubbing = s.scrubbing;
    timer = t;
    asked = s.asked;
  }

  -- The effect of a new index, after the cleanup that clears the timer. A snapshot without a time
  -- sets no timer.
  unfoldable pub scrub : (times : List String) → Option ℕ → Scrub B → Scrub B
  scrub times none s = with_timer none none none s
  scrub times (some i) s = with_timer (some i) s.book (get_elem? times i) s

  abbrev pub fire_for : Option String → Scrub B → Scrub B
  fire_for none s = s
  fire_for (some t) s = record {
    index = s.index;
    book = s.book;
    scrubbing = true;
    timer = none;
    asked = t ∷ s.asked;
  }

  -- The timer runs out, 500 ms later.
  unfoldable pub fire : Scrub B → Scrub B
  fire s = fire_for s.timer s

  abbrev pub book_ok : Bool → Option B → Option B → Option B
  book_ok true (some b) old = some b
  book_ok _ _ old = old

  abbrev pub book_of : BookReply B → Option B → Option B
  book_of crashed old = old
  book_of (replied status b) old = book_ok (is_ok status) b old

  -- A request is settled, the nth of those that are under way: nothing cancels it.
  unfoldable pub settle_book : ℕ → BookReply B → Scrub B → Scrub B
  settle_book n r s = record {
    index = s.index;
    book = book_of r s.book;
    scrubbing = false;
    timer = s.timer;
    asked = erase_idx s.asked n;
  }

  -- `activeBook`
  abbrev pub or_book : Option B → Option B → Option B
  or_book none latest = latest
  or_book (some b) latest = some b

  abbrev pub active_for : Option ℕ → Option B → Option B → Option B
  active_for none b latest = latest
  active_for (some i) b latest = or_book b latest

  abbrev pub active_book : (latest : Option B) → Scrub B → Option B
  active_book latest s = active_for s.index s.book latest

-- The request of a time.
abbrev pub book_url : (encode : String → String) → (market_id time : String) → String
book_url encode market_id time =
    concat ("/api/markets/" ∷ encode market_id ∷ "/orderbook?at=" ∷ encode time ∷ [])
