-- ===== src/Kube/Json.antt =====
-- A serialised value: the form in which fields that the program only passes through are kept.
use zookeeper_operator.Prelude.{ℤ, String, Bool, true, false}

mutual
  pub data Json : Type 0 where
    null : Json
    bool : Bool → Json
    number : ℤ → Json
    text : String → Json
    array : Items → Json
    object : Fields → Json

  pub data Items : Type 0 where
    nil : Items
    cons : Json → Items → Items

  pub data Fields : Type 0 where
    end : Fields
    field : String → Json → Fields → Fields

abbrev pub empty_object : Json
empty_object = object end

-- an object of one field
abbrev pub single : String → Json → Json
single k v = object (field k v end)

-- an array of one item
abbrev pub one : Json → Json
one v = array (cons v nil)

-- reflect.DeepEqual with the zero value of a struct, whose fields are left out
abbrev pub is_empty_object : Json → Bool
is_empty_object (object end) = true
is_empty_object (object (field k v fs)) = false
is_empty_object _ = false
