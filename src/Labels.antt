-- ===== src/Labels.antt =====
-- task/task.go: which labels are valid.
use Prim.Native.Char.{Char, code}
use batch_scheduler.Base.{
  String, Bool, true, false, ◌&&◌, ◌||◌, leb, ◌==◌, if◌then◌else◌, ◌≡◌, ◌↔◌, refl, arith,
  Bool-cases, inl, inr,
}

-- `[a-z0-9]`
abbrev pub is_word : Char → Bool
is_word c = (leb b'a' (code c) && leb (code c) b'z') || (leb b'0' (code c) && leb (code c) b'9')

-- `[.-]`
abbrev pub is_joint : Char → Bool
is_joint c = (code c == b'.') || (code c == b'-')

-- The rest of a label behind a character of a word (`true`), or where a word has to start.
unfoldable pub matches : Bool → String → Bool
matches inside String.[] = inside
matches inside (String.◌∷◌ c s) =
    let word = matches true s in
    let joint = matches false s in
    if is_word c then word else if inside && is_joint c then joint else false

-- `IsLabelValid`, the match of the expression `^[a-z0-9]+([.-][a-z0-9]+)*$`.
unfoldable pub is_label_valid : String → Bool
is_label_valid s = matches false s

-- The expression itself: words, one or more, with a joint between each two.
pub data IsWords : String → Type 0 where
  last_word : {c : Char} → is_word c ≡ true → IsWords (String.◌∷◌ c String.[])
  longer : {c : Char} {s : String} → is_word c ≡ true → IsWords s → IsWords (String.◌∷◌ c s)
  joined :
      {c j : Char} {s : String}
      → is_word c ≡ true
      → is_joint j ≡ true
      → IsWords s
      → IsWords (String.◌∷◌ c (String.◌∷◌ j s))

-- A joint is not a character of a word.
joint-word : (j : Char) → is_joint j ≡ true → is_word j ≡ false
joint-word j h = ground (arith, h)

starts_word :
    (inside : Bool) (c : Char) (s : String)
    → is_word c ≡ true
    → matches inside (String.◌∷◌ c s) ≡ matches true s
unfolding matches
starts_word inside c s h = rw h refl

words_match : (inside : Bool) (s : String) → IsWords s → matches inside s ≡ true
unfolding matches
words_match inside _ (last_word h) = rw h refl
words_match inside _ (longer h w) = rw h (words_match true _ w)
words_match inside _ (joined {j = j} h k w) = rw (h, joint-word j k, k) (words_match false _ w)

mutual
  unfolding matches

  match-IsWords : (s : String) → matches false s ≡ true → IsWords s
  match-IsWords String.[] e = absurd (ground (arith, e))
  match-IsWords (String.◌∷◌ c s) e = elim (Bool-cases (is_word c)) [
    | inl word ↦ rest-IsWords c word s (ground (arith, word, e))
    | inr other ↦ absurd (ground (arith, other, e))
  ]

  rest-IsWords :
      (c : Char)
      → is_word c ≡ true
      → (s : String) → matches true s ≡ true
      → IsWords (String.◌∷◌ c s)
  rest-IsWords c h String.[] e = last_word h
  rest-IsWords c h (String.◌∷◌ d s) e = elim (Bool-cases (is_word d)) [
    | inl word ↦ longer h (rest-IsWords d word s (ground (arith, word, e)))
    | inr other ↦ elim (Bool-cases (is_joint d)) [
      | inl joint ↦ joined h joint (match-IsWords s (ground (arith, other, joint, e)))
      | inr neither ↦ absurd (ground (arith, other, neither, e))
    ]
  ]

-- `IsLabelValid` accepts a text exactly where it is words of small letters and digits, one or more
-- and none of them empty, with a dot or a dash between each two.
pub is_label_valid_iff : (s : String) → (is_label_valid s ≡ true) ↔ IsWords s
unfolding is_label_valid
is_label_valid_iff s = (match-IsWords s, words_match false s)
