-- ===== src/Metrics/Labels.antt =====
-- `parse_labels`, `split_key`, `label_value` and the canonical key of src/metrics.rs, over code points.
use wire_harness.Prelude.{
  ℕ, zero, suc, Bool, true, false, ◌&&◌, ◌||◌, ltb, leb, ◌==◌, List, [], ◌∷◌, ◌++◌, Option, none,
  some, length, Result, ok, err, ensure, ◌>>=◌, ◌>>◌, if◌then◌else◌,
}

abbrev pub Text : Type 0
Text = List ℕ

-- A `BTreeMap<String, String>`, in the order of its keys.
abbrev pub Labels : Type 0
Labels = List (Text × Text)

pub data Error : Type 0 where
  braces equals label_name unquoted escape unterminated duplicate comma : Error
  no_value metric_name sample_value timestamp suffix duplicate_sample : Error
  out_of_rounds : Error

unfoldable pub ok_or {ℓ} : {A : Type ℓ} → Option A → Error → Result Error A
ok_or none e = err e
ok_or (some x) e = ok x

-- The order of `String`: that of UTF-8 bytes is that of code points.
unfoldable pub text_lt : Text → Text → Bool
text_lt s [] = false
text_lt [] (d ∷ t) = true
text_lt (c ∷ s) (d ∷ t) = ltb c d || (c == d && text_lt s t)

module _ {ℓ} {V : Type ℓ} where
  unfoldable pub put_first : Text × V → Option (List (Text × V)) → Option (List (Text × V))
  put_first l none = none
  put_first l (some m) = some (l ∷ m)

  -- `insert` into a `BTreeMap`, which gives nothing for a key that is there.
  unfoldable pub insert_new : Text → V → List (Text × V) → Option (List (Text × V))
  unfolding text_lt put_first
  insert_new k v [] = some ((k, v) ∷ [])
  insert_new k v ((j, w) ∷ m) =
      let rest = insert_new k v m in
      if text_lt k j
      then some ((k, v) ∷ (j, w) ∷ m)
      else if text_lt j k
      then put_first (j, w) rest
      else none

unfoldable pub push_front : ℕ → Option (Text × Text) → Option (Text × Text)
push_front c none = none
push_front c (some (s, t)) = some (c ∷ s, t)

unfoldable pub split_once : ℕ → Text → Option (Text × Text)
unfolding push_front
split_once d [] = none
split_once d (c ∷ s) =
    let rest = split_once d s in if c == d then some ([], s) else push_front c rest

unfoldable pub strip_first : ℕ → Text → Option Text
strip_first d [] = none
strip_first d (c ∷ s) = if c == d then some s else none

unfoldable pub keep_first : ℕ → Option Text → Option Text
keep_first c none = none
keep_first c (some s) = some (c ∷ s)

-- `strip_suffix`
unfoldable pub strip_last : ℕ → Text → Option Text
unfolding keep_first
strip_last d [] = none
strip_last d (c ∷ []) = if c == d then some [] else none
strip_last d (c ∷ b ∷ s) = keep_first c (strip_last d (b ∷ s))

-- `is_ascii_alphabetic` or an underscore
unfoldable pub is_start : ℕ → Bool
is_start c = (leb 65 c && leb c 90) || (leb 97 c && leb c 122) || c == 95

unfoldable pub is_inner : ℕ → Bool
unfolding is_start
is_inner c = is_start c || (leb 48 c && leb c 57)

unfoldable pub all_inner : Text → Bool
unfolding is_inner
all_inner [] = true
all_inner (c ∷ s) = is_inner c && all_inner s

-- The test on the bytes of a label's name: those above ASCII fail it, as do their characters.
unfoldable pub is_label_name : Text → Bool
unfolding is_start all_inner
is_label_name [] = false
is_label_name (c ∷ s) = is_start c && all_inner s

-- What a backslash makes of `n`, of itself and of the quote.
unfoldable pub unescape : ℕ → Option ℕ
unescape c =
    if c == 110 then some 10 else if c == 92 then some 92 else if c == 34 then some 34 else none

unfoldable pub prepend : ℕ → Result Error (Text × Text) → Result Error (Text × Text)
prepend c (ok (decoded, rest)) = ok (c ∷ decoded, rest)
prepend c (err e) = err e

unfoldable pub unescaped : Option ℕ → Result Error (Text × Text) → Result Error (Text × Text)
unfolding prepend
unescaped none rest = err escape
unescaped (some c) rest = prepend c rest

-- The loop over a quoted value, whether behind a backslash: the decoded value, and what follows the
-- closing quote.
unfoldable pub quoted : Bool → Text → Result Error (Text × Text)
unfolding unescape unescaped prepend
quoted escaped [] = err unterminated
quoted true (c ∷ s) = unescaped (unescape c) (quoted false s)
quoted false (c ∷ s) =
    let behind = quoted true s in
    let rest = quoted false s in
    if c == 92 then behind else if c == 34 then ok ([], s) else prepend c rest

-- The body of the loop of `parse_labels`, up to the insertion: the labels, and what follows.
unfoldable pub parse_label : Text → Labels → Result Error (Labels × Text)
unfolding ok_or split_once is_label_name strip_first quoted insert_new
parse_label text labels = do
  (key, quote) ← ok_or (split_once 61 text) equals
  ensure (is_label_name key) label_name
  encoded ← ok_or (strip_first 34 quote) unquoted
  (decoded, rest) ← quoted false encoded
  more ← ok_or (insert_new key decoded labels) duplicate
  ok (more, rest)

-- What stands behind the comma, or nothing.
unfoldable pub after_label : Text → Result Error Text
after_label [] = ok []
after_label (c ∷ s) = if c == 44 then ok s else err comma

-- The loop of `parse_labels`: a round takes at least one character. Running out of rounds is an error
-- of the model, which the loop of the source does not have.
unfoldable pub label_rounds : ℕ → Text → Labels → Result Error Labels
unfolding parse_label after_label
label_rounds n [] labels = ok labels
label_rounds zero (c ∷ s) labels = err out_of_rounds
label_rounds (suc n) (c ∷ s) labels = do
  (more, rest) ← parse_label (c ∷ s) labels
  left ← after_label rest
  label_rounds n left more

unfoldable pub strip_braces : Text → Option Text
unfolding strip_first strip_last
strip_braces s = elim (strip_first 123 s) [ none ↦ none | some t ↦ strip_last 125 t ]

unfoldable pub parse_labels : Text → Result Error Labels
unfolding ok_or strip_braces label_rounds
parse_labels [] = ok []
parse_labels (c ∷ s) = do
  body ← ok_or (strip_braces (c ∷ s)) braces
  label_rounds (length body) body []

-- `replace` of a character
unfoldable pub replace : ℕ → Text → Text → Text
replace d with [] = []
replace d with (c ∷ s) = (if c == d then with else c ∷ []) ++ replace d with s

-- The three replacements that write a value.
unfoldable pub escape_value : Text → Text
unfolding replace
escape_value s =
    replace 34 (92 ∷ 34 ∷ []) (replace 10 (92 ∷ 110 ∷ []) (replace 92 (92 ∷ 92 ∷ []) s))

-- `format!("{key}=\"{escaped}\"")`
unfoldable pub write_label : Text × Text → Text
unfolding escape_value
write_label (key, value) = key ++ 61 ∷ 34 ∷ (escape_value value ++ 34 ∷ [])

-- `join(",")`
unfoldable pub write_labels : Labels → Text
unfolding write_label
write_labels [] = []
write_labels (l ∷ []) = write_label l
write_labels (l ∷ m ∷ ls) = write_label l ++ 44 ∷ write_labels (m ∷ ls)

-- The labels of a key, in braces when there are any.
unfoldable pub in_braces : Text → Text
in_braces [] = []
in_braces (c ∷ s) = 123 ∷ (c ∷ s) ++ (125 ∷ [])

-- The key of a sample: its name, and its labels in their order.
unfoldable pub canonical_key : Text → Labels → Text
unfolding in_braces write_labels
canonical_key name labels = name ++ in_braces (write_labels labels)

unfoldable pub split_key : Text → Text × Text
split_key [] = ([], [])
split_key (c ∷ s) = let rest = split_key s in if c == 123 then ([], c ∷ s) else (c ∷ rest.0, rest.1)

unfoldable pub same_text : Text → Text → Bool
same_text [] [] = true
same_text (c ∷ s) (d ∷ t) = c == d && same_text s t
same_text _ _ = false

-- `remove`
unfoldable pub get_label : Text → Labels → Option Text
unfolding same_text
get_label k [] = none
get_label k ((j, v) ∷ m) = let rest = get_label k m in if same_text k j then some v else rest

unfoldable pub label_value : Text → Text → Option Text
unfolding parse_labels get_label
label_value labels key = elim (parse_labels labels) [ ok m ↦ get_label key m | err e ↦ none ]
