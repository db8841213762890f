-- ===== src/Values/Fields.antt =====
-- Lookups after the changes of a dictionary of values.
use delta_gateway_chat_woot.Base.{
  String, str_eq, eq_iff, eq_refl, ◌≡◌, refl, none, some, arith, if◌then◌else◌,
}
use delta_gateway_chat_woot.Values.{Value, Members, end, member, find, set, remove}

pub find-set :
    (k j : String) (v : Value) (d : Members)
    → find j (set k v d) ≡ (if str_eq k j then some v else find j d)
unfolding find set
find-set k j v end = refl
find-set k j v (member i w d) = ground (arith, eq_iff k j, eq_iff i k, eq_iff i j, find-set k j v d)

pub find-set_self : (k : String) (v : Value) (d : Members) → find k (set k v d) ≡ some v
find-set_self k v d = simp (find-set, eq_refl)

-- Setting a key that is missing puts it last, and removing it gives the dictionary back.
pub remove-set : (k : String) (v : Value) (d : Members) → find k d ≡ none → remove k (set k v d) ≡ d
unfolding find set remove
remove-set k v end h = simp eq_refl
remove-set k v (member i w d) h = ground (arith, eq_iff i k, remove-set k v d)

pub remove-none : (k : String) (d : Members) → find k d ≡ none → remove k d ≡ d
unfolding find remove
remove-none k end h = refl
remove-none k (member i w d) h = ground (arith, eq_iff i k, remove-none k d)
