-- ===== src/Codegen/Keys.antt =====
-- `exprKey` of web/libs/pythonCodegen.ts: the name that a Python expression is remembered by.
use polyquantlab.Common.{
  ℕ, zero, suc, Bool, true, false, ◌&&◌, ◌||◌, leb, ◌==◌, ◌≡◌, refl, ◌≤◌, arith,
}
use Prim.Native.Char.{Char, char, code}
use text.Mathlib.TextLemmas.{length-cons}
use Prim.Native.String.{String, [], ◌∷◌, count}

-- `[a-zA-Z0-9_]`
unfoldable pub is_word : Char → Bool
is_word c =
    (leb 97 (code c) && leb (code c) 122)
    || ((leb 65 (code c) && leb (code c) 90)
        || ((leb 48 (code c) && leb (code c) 57) || (code c == 95)))

abbrev underscore : Char
underscore = char 95 tt

abbrev squash_from : Bool → Bool → Char → String → String → String
squash_from true in_run c rest run = c ∷ rest
squash_from false true c rest run = run
squash_from false false c rest run = underscore ∷ run

-- `.replace(/[^a-zA-Z0-9_]+/g, "_")`; the flag says that the run before is replaced already.
unfoldable pub squash : Bool → String → String
squash in_run [] = []
squash in_run (c ∷ s) = squash_from (is_word c) in_run c (squash false s) (squash true s)

abbrev drop_head : Bool → Char → String → String → String
drop_head true c s rest = rest
drop_head false c s rest = c ∷ s

-- `.replace(/^_+/, "")`
unfoldable pub trim_left : String → String
trim_left [] = []
trim_left (c ∷ s) = drop_head (code c == 95) c s (trim_left s)

abbrev keep_char : Bool → Char → String → String
keep_char true c [] = []
keep_char false c [] = c ∷ []
keep_char b c (d ∷ s) = c ∷ d ∷ s

-- `.replace(/_+$/, "")`
unfoldable pub trim_right : String → String
trim_right [] = []
trim_right (c ∷ s) = keep_char (code c == 95) c (trim_right s)

-- `.slice(0, n)` of an ASCII text
unfoldable pub prefix : ℕ → String → String
prefix zero s = []
prefix (suc n) [] = []
prefix (suc n) (c ∷ s) = c ∷ prefix n s

-- `exprKey`
unfoldable pub expr_key : String → String
expr_key expr = prefix 40 (trim_right (trim_left (squash false expr)))

-- Every character is a letter, a digit or an underscore.
abbrev pub IsWord : String → Type 0
IsWord [] = Unit
IsWord (c ∷ s) = (is_word c ≡ true) × IsWord s

squash_from-IsWord :
    (b in_run : Bool) (c : Char) (rest run : String)
    → is_word c ≡ b
    → IsWord rest
    → IsWord run
    → IsWord (squash_from b in_run c rest run)
squash_from-IsWord true in_run c rest run e h k = (e, h)
squash_from-IsWord false true c rest run e h k = k
squash_from-IsWord false false c rest run e h k = (unfold is_word in refl, k)

squash-IsWord : (in_run : Bool) (s : String) → IsWord (squash in_run s)
unfolding squash
squash-IsWord in_run [] = tt
squash-IsWord in_run (c ∷ s) =
    squash_from-IsWord (is_word c) in_run c (squash false s) (squash true s) refl
      (squash-IsWord false s) (squash-IsWord true s)

drop_head-IsWord :
    (b : Bool) (c : Char) (s rest : String)
    → IsWord (c ∷ s)
    → IsWord rest
    → IsWord (drop_head b c s rest)
drop_head-IsWord true c s rest h k = k
drop_head-IsWord false c s rest h k = h

trim_left-IsWord : (s : String) → IsWord s → IsWord (trim_left s)
unfolding trim_left
trim_left-IsWord [] h = tt
trim_left-IsWord (c ∷ s) h =
    drop_head-IsWord (code c == 95) c s (trim_left s) h (trim_left-IsWord s h.1)

keep_char-IsWord :
    (b : Bool) (c : Char) (s : String) → is_word c ≡ true → IsWord s → IsWord (keep_char b c s)
keep_char-IsWord true c [] e h = tt
keep_char-IsWord false c [] e h = (e, tt)
keep_char-IsWord b c (d ∷ s) e h = (e, h)

trim_right-IsWord : (s : String) → IsWord s → IsWord (trim_right s)
unfolding trim_right
trim_right-IsWord [] h = tt
trim_right-IsWord (c ∷ s) h =
    keep_char-IsWord (code c == 95) c (trim_right s) h.0 (trim_right-IsWord s h.1)

prefix-IsWord : (n : ℕ) (s : String) → IsWord s → IsWord (prefix n s)
unfolding prefix
prefix-IsWord zero s h = tt
prefix-IsWord (suc n) [] h = tt
prefix-IsWord (suc n) (c ∷ s) h = (h.0, prefix-IsWord n s h.1)

count-prefix : (n : ℕ) (s : String) → count (prefix n s) ≤ n
unfolding prefix
count-prefix zero s = omega arith
count-prefix (suc n) [] = omega arith
count-prefix (suc n) (c ∷ s) = rw (length-cons c (prefix n s)) (omega (arith, count-prefix n s))

-- The name of an expression may follow `prev_` in a Python identifier: it has letters, digits and
-- underscores only, forty at most.
pub expr_key-IsWord : (expr : String) → IsWord (expr_key expr) × (count (expr_key expr) ≤ 40)
unfolding expr_key
expr_key-IsWord expr = (
  prefix-IsWord 40 _ (
      trim_right-IsWord (trim_left (squash false expr))
        (trim_left-IsWord (squash false expr) (squash-IsWord false expr))),
  count-prefix 40 _,
)
