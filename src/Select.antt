-- ===== src/Select.antt =====
-- The select box, web/components/QSelect.tsx: its state, the keys and the mouse. The highlight of the
-- source is a number that is -1 after End in an empty list.
pub mod Choices
mod Tests
use polyquantlab.Common.{
  ℕ, zero, suc, ◌-◌, ◌≤◌, ◌<◌, ◌≡◌, refl, ◌∙◌, arith, min, String, str_eq, Bool, true, false, not,
  List, [], ◌∷◌, Option, none, some, length, get_elem?,
}

pub data Highlight : Type 0 where
  before : Highlight
  at : ℕ → Highlight

pub record Select : Type 0 where
  pub is_open : Bool
  pub highlight : Highlight

pub data Key : Type 0 where
  enter space arrow_down arrow_up escape home end tab other : Key

-- What the user does; an entry of the list that is hovered or clicked is there.
pub data Input : Type 0 where
  key : Key → Input
  click_button click_outside : Input
  hover click_option : ℕ → Input

-- `options.length - 1`
abbrev pub last_of : List String → Highlight
last_of [] = before
last_of (o ∷ os) = at (length os)

-- `Math.min(options.length - 1, h + 1)`
abbrev pub down : List String → Highlight → Highlight
down [] h = before
down (o ∷ os) before = at 0
down (o ∷ os) (at n) = at (min (length os) (suc n))

-- `Math.max(0, h - 1)`
abbrev pub up : Highlight → Highlight
up before = at 0
up (at n) = at (n - 1)

-- `choose`: without such an option nothing happens; the second part is the value passed to `onChange`.
abbrev pub chosen : Select → Option String → Select × Option String
chosen s none = (s, none)
chosen s (some v) = (record s { is_open = false }, some v)

abbrev pub choose : List String → Highlight → Select → Select × Option String
choose os before s = chosen s none
choose os (at n) s = chosen s (get_elem? os n)

abbrev pub key_closed : Key → Select → Select
key_closed enter s = record s { is_open = true }
key_closed space s = record s { is_open = true }
key_closed arrow_down s = record s { is_open = true }
key_closed arrow_up s = record s { is_open = true }
key_closed _ s = s

abbrev pub key_open : List String → Key → Select → Select × Option String
key_open os escape s = (record s { is_open = false }, none)
key_open os arrow_down s = (record s { highlight = down os s.highlight }, none)
key_open os arrow_up s = (record s { highlight = up s.highlight }, none)
key_open os home s = (record s { highlight = at 0 }, none)
key_open os end s = (record s { highlight = last_of os }, none)
key_open os enter s = choose os s.highlight s
key_open os tab s = (record s { is_open = false }, none)
key_open os _ s = (s, none)

-- `handleKey`, less the test on `disabled`
abbrev pub handle_key : List String → Bool → Key → Select → Select × Option String
handle_key os true k s = key_open os k s
handle_key os false k s = (key_closed k s, none)

-- A handler; the list is there, and the handler of outside clicks, while the box is open.
abbrev pub handle_open : List String → Bool → Input → Select → Select × Option String
handle_open os b (key k) s = handle_key os b k s
handle_open os b click_button s = (record s { is_open = not s.is_open }, none)
handle_open os true click_outside s = (record s { is_open = false }, none)
handle_open os true (hover i) s = (record s { highlight = at i }, none)
handle_open os true (click_option i) s = choose os (at i) s
handle_open os false _ s = (s, none)

-- A disabled box has no handler of its own that acts.
abbrev pub handle_input_if : Bool → List String → Input → Select → Select × Option String
handle_input_if true os (key k) s = (s, none)
handle_input_if true os click_button s = (s, none)
handle_input_if true os i s = handle_open os s.is_open i s
handle_input_if false os i s = handle_open os s.is_open i s

unfoldable pub handle_input : Bool → List String → Input → Select → Select × Option String
handle_input disabled os i s = handle_input_if disabled os i s
