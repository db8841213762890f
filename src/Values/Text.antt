-- ===== src/Values/Text.antt =====
-- Python's `str(v)` of a JSON value. Characters outside ASCII are taken to be printable.
use Prim.Native.Char.{code}
use delta_gateway_chat_woot.Base.{
  ℕ, ◌/◌, ◌%◌, String, append, Bool, true, false, ◌&&◌, ◌||◌, int_text, ltb, ◌==◌, if◌then◌else◌,
  ◌≡◌, refl, pos,
}
use delta_gateway_chat_woot.Values.{
  Value, null, bool, int, str, arr, obj, Items, nil, cons, Members, end, member,
}

hex_digit : ℕ → String
hex_digit n =
    if n == 15
    then "f"
    else if n == 14
    then "e"
    else if n == 13
    then "d"
    else if n == 12
    then "c"
    else if n == 11
    then "b"
    else if n == 10
    then "a"
    else int_text (pos n)

has_code : ℕ → String → Bool
has_code n String.[] = false
has_code n (String.◌∷◌ c s) = (code c == n) || has_code n s

-- One character of a text in quotes whose mark is `quote`.
escape : ℕ → ℕ → String → String
escape quote n c =
    if (n == quote) || (n == 92)
    then append "\\" c
    else if n == 10
    then "\\n"
    else if n == 13
    then "\\r"
    else if n == 9
    then "\\t"
    else if ltb n 32 || (n == 127)
    then append "\\x" (append (hex_digit (n / 16)) (hex_digit (n % 16)))
    else c

escape_all : ℕ → String → String
escape_all quote String.[] = ""
escape_all quote (String.◌∷◌ c s) =
    append (escape quote (code c) (String.◌∷◌ c "")) (escape_all quote s)

quoted : String → String
quoted s =
    if has_code 39 s && (if has_code 34 s then false else true)
    then append "\"" (append (escape_all 34 s) "\"")
    else append "'" (append (escape_all 39 s) "'")

mutual
  repr : Value → String
  repr null = "None"
  repr (bool true) = "True"
  repr (bool false) = "False"
  repr (int z) = int_text z
  repr (str s) = quoted s
  repr (arr vs) = append "[" (append (repr_items "" vs) "]")
  repr (obj m) = append "{" (append (repr_members "" m) "}")

  repr_items : String → Items → String
  repr_items sep nil = ""
  repr_items sep (cons v vs) = append sep (append (repr v) (repr_items ", " vs))

  repr_members : String → Members → String
  repr_members sep end = ""
  repr_members sep (member k v d) =
      append sep (append (quoted k) (append ": " (append (repr v) (repr_members ", " d))))

-- str(v)
unfoldable pub text_of : Value → String
unfolding repr quoted escape_all escape has_code hex_digit
text_of (str s) = s
text_of null = "None"
text_of (bool b) = repr (bool b)
text_of (int z) = int_text z
text_of (arr vs) = repr (arr vs)
text_of (obj m) = repr (obj m)

text_of_test :
    text_of (obj (member "a" (arr (cons (str "it's\n") nil)) end)) ≡ "{'a': [\"it's\\n\"]}"
unfolding text_of
text_of_test = refl
