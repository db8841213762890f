-- ===== src/Values.antt =====
-- JSON values as Python holds them: `json.loads`, `raw_data.get(k)`, `raw_data[k]`, truth and `str`.
-- Numbers with a fraction are left out. An object keeps its members in insertion order.
pub mod Fields
pub mod Text
use delta_gateway_chat_woot.Base.{
  ℤ, is_zero, int_text, String, append, str_eq, Bool, true, false, not, List, [], ◌∷◌, Option, none,
  some, if◌then◌else◌,
}
use delta_gateway_chat_woot.Base.Dict.{Dict}
use delta_gateway_chat_woot.Errors.{
  Exc, key_error, type_error, attribute_error, index_error, Result, ok, err,
}

mutual
  pub data Value : Type 0 where
    null : Value
    bool : Bool → Value
    int : ℤ → Value
    str : String → Value
    arr : Items → Value
    obj : Members → Value

  pub data Items : Type 0 where
    nil : Items
    cons : Value → Items → Items

  pub data Members : Type 0 where
    end : Members
    member : String → Value → Members → Members

abbrev pub items : Items → List Value
items nil = []
items (cons v vs) = v ∷ items vs

abbrev pub arr_of : List Value → Items
arr_of [] = nil
arr_of (v ∷ vs) = cons v (arr_of vs)

-- The dictionary with the given members, which have different keys.
abbrev pub obj_of : Dict Value → Members
obj_of [] = end
obj_of ((k, v) ∷ d) = member k v (obj_of d)

abbrev pub dict_of : Dict Value → Value
dict_of d = obj (obj_of d)

-- d.get(k), with `none` where the key is missing
unfoldable pub find : String → Members → Option Value
find k end = none
find k (member j v d) = if str_eq j k then some v else find k d

-- d[k] = v
unfoldable pub set : String → Value → Members → Members
set k v end = member k v end
set k v (member j w d) = if str_eq j k then member k v d else member j w (set k v d)

-- d.pop(k, None)
unfoldable pub remove : String → Members → Members
remove k end = end
remove k (member j w d) = if str_eq j k then d else member j w (remove k d)

-- bool(v)
unfoldable pub truthy : Value → Bool
truthy null = false
truthy (bool b) = b
truthy (int z) = not (is_zero z)
truthy (str s) = not (str_eq s "")
truthy (arr nil) = false
truthy (arr (cons v vs)) = true
truthy (obj end) = false
truthy (obj (member k v d)) = true

-- a or b
unfoldable pub or_value : Value → Value → Value
or_value a b = if truthy a then a else b

-- v.get(k, d): only a dictionary has the method.
unfoldable pub get_default : String → Value → Value → Result Value
get_default k d (obj m) = ok (elim (find k m) [ none ↦ d | some v ↦ v ])
get_default k d _ = err attribute_error

-- v.get(k)
unfoldable pub get_value : String → Value → Result Value
get_value k v = get_default k null v

-- v[k] with a text for k: a list, a text or None is not indexed by it.
unfoldable pub index : String → Value → Result Value
index k (obj m) = elim (find k m) [ none ↦ err key_error | some v ↦ ok v ]
index k _ = err type_error

-- v[0]: a dictionary has no such key here, since its keys are texts.
unfoldable pub first : Value → Result Value
first (arr nil) = err index_error
first (arr (cons v vs)) = ok v
first (obj m) = err key_error
first (str (String.[])) = err index_error
first (str (String.◌∷◌ c s)) = ok (str (String.◌∷◌ c String.[]))
first _ = err type_error

-- for x in v: a dictionary's keys, a text's characters
characters : String → List Value
characters String.[] = []
characters (String.◌∷◌ c s) = str (String.◌∷◌ c String.[]) ∷ characters s

key_values : Members → List Value
key_values end = []
key_values (member k v d) = str k ∷ key_values d

unfoldable pub iterate : Value → Result (List Value)
unfolding characters key_values
iterate (arr vs) = ok (items vs)
iterate (obj m) = ok (key_values m)
iterate (str s) = ok (characters s)
iterate _ = err type_error

-- isinstance(v, dict), isinstance(v, str)
abbrev pub is_obj : Value → Bool
is_obj (obj m) = true
is_obj _ = false

abbrev pub is_str : Value → Bool
is_str (str s) = true
is_str _ = false

-- v == "text"
abbrev pub equals : Value → String → Bool
equals (str s) t = str_eq s t
equals _ t = false
