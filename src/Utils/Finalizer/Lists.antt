-- ===== src/Utils/Finalizer/Lists.antt =====
-- ContainsString after RemoveString and after append.
use zookeeper_operator.Prelude.{
  String, str_eq, eq_iff, false, List, [], ◌∷◌, ◌++◌, ◌||◌, if◌then◌else◌, ◌≡◌, arith,
}
use zookeeper_operator.Utils.Finalizer.{contains_string, remove_string}

-- After RemoveString of one text, ContainsString finds every other text exactly where it did before,
-- and never finds the removed one.
pub contains_string-remove_string :
    (slice : List String) (str item : String)
    → contains_string (remove_string slice str) item
      ≡ (if str_eq str item then false else contains_string slice item)
unfolding contains_string remove_string
contains_string-remove_string [] str item = ground arith
contains_string-remove_string (x ∷ slice) str item = ground (
  arith,
  eq_iff x str,
  eq_iff x item,
  eq_iff str item,
  contains_string-remove_string slice str item,
)

-- ContainsString over an appended element.
pub contains_string-append :
    (slice : List String) (x item : String)
    → contains_string (slice ++ x ∷ []) item ≡ (contains_string slice item || str_eq x item)
unfolding contains_string
contains_string-append [] x item = ground arith
contains_string-append (y ∷ slice) x item = ground (arith, contains_string-append slice x item)
