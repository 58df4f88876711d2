-- ===== src/Select/Choices.antt =====
-- What the select box passes on, and where its highlight is.
use polyquantlab.Common.{
  ℕ, ◌<◌, ◌≡◌, refl, arith, String, Bool, true, false, List, [], ◌∷◌, Option, none, some, length,
  get_elem?,
}
use polyquantlab.Select.{
  Highlight, before, at, Select, Key, enter, space, arrow_down, arrow_up, escape, home, end, tab,
  Input, key, click_button, click_outside, hover, click_option, last_of, down, up, chosen, choose,
  key_closed, key_open, handle_key, handle_open, handle_input,
}

-- The highlight is a position of the list.
abbrev pub InRange : List String → Highlight → Type 0
InRange os before = ⊥
InRange os (at n) = n < length os

-- An entry that is hovered is there.
abbrev pub IsThere : List String → Input → Type 0
IsThere os (hover i) = i < length os
IsThere os _ = Unit

down-InRange : (os : List String) (h : Highlight) → InRange os h → InRange os (down os h)
down-InRange [] before k = k
down-InRange [] (at n) k = omega arith
down-InRange (o ∷ os) before k = omega arith
down-InRange (o ∷ os) (at n) k = omega arith

up-InRange : (os : List String) (h : Highlight) → InRange os h → InRange os (up h)
up-InRange os before k = elim k [ ]
up-InRange os (at n) k = omega arith

home-InRange : (os : List String) (h : Highlight) → InRange os h → InRange os (at 0)
home-InRange os before k = elim k [ ]
home-InRange os (at n) k = omega arith

last_of-InRange : (os : List String) (h : Highlight) → InRange os h → InRange os (last_of os)
last_of-InRange [] before k = k
last_of-InRange [] (at n) k = omega arith
last_of-InRange (o ∷ os) h k = omega arith

-- What is passed on: nothing, or the value at a position of the list.
pub data IsChosen (os : List String) : Option String → Type 0 where
  nothing : IsChosen os none
  at_position : (n : ℕ) {v : String} → get_elem? os n ≡ some v → IsChosen os (some v)

-- What a handler gives is right: the highlight is in range, and a value that is passed on is the one
-- at a position of the list.
abbrev pub IsRight : List String → Select × Option String → Type 0
IsRight os (s, v) = InRange os s.highlight × IsChosen os v

chosen-IsRight :
    (os : List String) (n : ℕ) (s : Select) (o : Option String)
    → get_elem? os n ≡ o
    → InRange os s.highlight
    → IsRight os (chosen s o)
chosen-IsRight os n s none e h = (h, nothing)
chosen-IsRight os n s (some v) e h = (h, at_position n e)

choose-IsRight :
    (os : List String) (h : Highlight) (s : Select)
    → InRange os s.highlight
    → IsRight os (choose os h s)
choose-IsRight os before s k = (k, nothing)
choose-IsRight os (at n) s k = chosen-IsRight os n s (get_elem? os n) refl k

key_open-IsRight :
    (os : List String) (k : Key) (s : Select)
    → InRange os s.highlight
    → IsRight os (key_open os k s)
key_open-IsRight os escape s h = (h, nothing)
key_open-IsRight os arrow_down s h = ((down-InRange os s.highlight h), nothing)
key_open-IsRight os arrow_up s h = ((up-InRange os s.highlight h), nothing)
key_open-IsRight os home s h = ((home-InRange os s.highlight h), nothing)
key_open-IsRight os end s h = ((last_of-InRange os s.highlight h), nothing)
key_open-IsRight os enter s h = choose-IsRight os s.highlight s h
key_open-IsRight os tab s h = (h, nothing)
key_open-IsRight os _ s h = (h, nothing)

key_closed-InRange :
    (os : List String) (k : Key) (s : Select)
    → InRange os s.highlight
    → InRange os (key_closed k s).highlight
key_closed-InRange os enter s h = h
key_closed-InRange os space s h = h
key_closed-InRange os arrow_down s h = h
key_closed-InRange os arrow_up s h = h
key_closed-InRange os _ s h = h

handle_key-IsRight :
    (os : List String) (b : Bool) (k : Key) (s : Select)
    → InRange os s.highlight
    → IsRight os (handle_key os b k s)
handle_key-IsRight os true k s h = key_open-IsRight os k s h
handle_key-IsRight os false k s h = ((key_closed-InRange os k s h), nothing)

handle_open-IsRight :
    (os : List String) (b : Bool) (i : Input) (s : Select)
    → IsThere os i
    → InRange os s.highlight
    → IsRight os (handle_open os b i s)
handle_open-IsRight os b (key k) s t h = handle_key-IsRight os b k s h
handle_open-IsRight os b click_button s t h = (h, nothing)
handle_open-IsRight os true click_outside s t h = (h, nothing)
handle_open-IsRight os true (hover i) s t h = (t, nothing)
handle_open-IsRight os true (click_option i) s t h = choose-IsRight os (at i) s h
handle_open-IsRight os false _ s t h = (h, nothing)

-- On a list that stays as it is, whatever the user does in the box: a highlight in range stays in
-- range, and a value that is passed to `onChange` is one of the list. An entry that is hovered is
-- there.
pub handle_input-IsRight :
    (disabled : Bool) (os : List String) (i : Input) (s : Select)
    → IsThere os i
    → InRange os s.highlight
    → IsRight os (handle_input disabled os i s)
unfolding handle_input
handle_input-IsRight true os (key k) s t h = (h, nothing)
handle_input-IsRight true os click_button s t h = (h, nothing)
handle_input-IsRight true os i s t h = handle_open-IsRight os s.is_open i s t h
handle_input-IsRight false os i s t h = handle_open-IsRight os s.is_open i s t h
