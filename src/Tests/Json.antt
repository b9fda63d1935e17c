-- ===== src/Tests/Json.antt =====
-- A JSON library small enough to run: values print as bytes behind markers, and a value prints
-- only if it is an object of strings and Booleans. It shows that the laws of `Json` can hold.
use secretov.Prelude.{
  ℕ, true, false, ◌||◌, ◌==◌, if◌then◌else◌, zero, suc, ◌≡◌, refl, ap, Option, none, some, Bool,
  List, [], ◌∷◌, ◌++◌, arith, ◌∙◌, inl, inr, Option-cases, append-nil,
}
use secretov.Prelude.Text.{Text, lit}
use secretov.Prelude.Map.{Map}
use secretov.Platform.{Json, JsonLaws}

mutual
  pub data Value : Type 0 where
    string : Text → Value
    boolean : Bool → Value
    array : Items → Value
    object : Members → Value

  pub data Items : Type 0 where
    nil : Items
    cons : Value → Items → Items

  pub data Members : Type 0 where
    end : Members
    member : Text → Value → Members → Members

abbrev items : List Value → Items
items [] = nil
items (v ∷ vs) = cons v (items vs)

abbrev list_of : Items → List Value
list_of nil = []
list_of (cons v vs) = v ∷ list_of vs

abbrev members : Map Value → Members
members [] = end
members ((k, v) ∷ m) = member k v (members m)

abbrev map_of : Members → Map Value
map_of end = []
map_of (member k v m) = (k, v) ∷ map_of m

list_of-items : (vs : List Value) → list_of (items vs) ≡ vs
list_of-items [] = refl
list_of-items (v ∷ vs) = ap (◌∷◌ v) (list_of-items vs)

map_of-members : (m : Map Value) → map_of (members m) ≡ m
map_of-members [] = refl
map_of-members ((k, v) ∷ m) = ap (◌∷◌ (k, v)) (map_of-members m)

-- A text as its bytes plus one, behind it a zero.
abbrev pub framed : Text → Text → Text
framed [] rest = 0 ∷ rest
framed (b ∷ t) rest = suc b ∷ framed t rest

-- A Boolean prints as a number that is no byte; a string of that number does not print.
abbrev is_mark : ℕ → Text → Bool
is_mark n (c ∷ []) = c == n
is_mark n _ = false

abbrev print_value : Value → Option Text
print_value (string v) = if is_mark 300 v || is_mark 301 v then none else some v
print_value (boolean true) = some (300 ∷ [])
print_value (boolean false) = some (301 ∷ [])
print_value _ = none

abbrev read_value : Text → Value
read_value t =
    if is_mark 300 t then boolean true else if is_mark 301 t then boolean false else string t

read_value-print_value : (v : Value) {t : Text} → print_value v ≡ some t → read_value t ≡ v
read_value-print_value (string v) h = ground (arith, h)
read_value-print_value (boolean true) h = ground (arith, h)
read_value-print_value (boolean false) h = ground (arith, h)
read_value-print_value (array l) h = cc
read_value-print_value (object o) h = cc

abbrev dump_members : Members → Option Text
dump_members end = some []
dump_members (member k v m) = elim (print_value v) [
  | none ↦ none
  | some t ↦ elim (dump_members m) [ none ↦ none | some rest ↦ some (framed k (framed t rest)) ]
]

abbrev dump : Value → Option Text
dump (object m) = dump_members m
dump _ = none

-- The text that is being read, reversed at its end, and then the texts behind it.
abbrev onto : Text → Text → Text
onto [] t = t
onto (b ∷ acc) t = onto acc (b ∷ t)

abbrev finish : Text → Option (List Text) → Option (List Text)
finish acc none = none
finish acc (some ts) = some (onto acc [] ∷ ts)

abbrev read_texts : Text → Text → Option (List Text)
read_texts [] [] = some []
read_texts [] (b ∷ acc) = none
read_texts (zero ∷ s) acc = finish acc (read_texts s [])
read_texts (suc b ∷ s) acc = read_texts s (b ∷ acc)

abbrev pair_up : List Text → Option Members
pair_up [] = some end
pair_up (k ∷ []) = none
pair_up (k ∷ v ∷ ts) = elim (pair_up ts) [ none ↦ none | some m ↦ some (member k (read_value v) m) ]

abbrev parse : Text → Option Value
parse s = elim (read_texts s []) [
  | none ↦ none
  | some ts ↦ elim (pair_up ts) [ none ↦ none | some m ↦ some (object m) ]
]

read_texts-framed :
    (t rest acc : Text) → read_texts (framed t rest) acc ≡ finish (onto t acc) (read_texts rest [])
read_texts-framed [] rest acc = refl
read_texts-framed (b ∷ t) rest acc = read_texts-framed t rest (b ∷ acc)

onto-onto : (t acc s : Text) → onto (onto t acc) s ≡ onto acc (t ++ s)
onto-onto [] acc s = refl
onto-onto (b ∷ t) acc s = onto-onto t (b ∷ acc) s

-- A framed text is read whole.
read_text :
    (t rest : Text) {ts : List Text}
    → read_texts rest [] ≡ some ts
    → read_texts (framed t rest) [] ≡ some (t ∷ ts)
read_text t rest {ts} h =
    read_texts-framed t rest [] ∙ rw h (ap (λ u. some (u ∷ ts)) (onto-onto t [] [] ∙ append-nil t))

-- The texts of the members.
abbrev texts : Members → List Text
texts end = []
texts (member k v m) = elim (print_value v) [ none ↦ [] | some t ↦ k ∷ t ∷ texts m ]

read_texts-dump :
    (m : Members) {s : Text}
    → dump_members m ≡ some s
    → (read_texts s [] ≡ some (texts m)) × (pair_up (texts m) ≡ some m)
read_texts-dump end h = ground arith
read_texts-dump (member k v m) h = elim (Option-cases (print_value v)) [
  | inl e ↦ ground (arith, e)
  | inr (t, p) ↦ elim (Option-cases (dump_members m)) [
    | inl e ↦ ground (arith, e, p)
    | inr (rest, e) ↦
        let (read, paired) = read_texts-dump m e in
        let whole = read_text k (framed t rest) (read_text t rest read) in
        (ground (arith, e, p, whole), ground (arith, p, paired, read_value-print_value v p))
  ]
]

parse-dump : (v : Value) (t : Text) → dump v ≡ some t → parse t ≡ some v
parse-dump (object m) t h = let (read, paired) = read_texts-dump m h in ground (arith, read, paired)
parse-dump (string s) t h = cc
parse-dump (boolean b) t h = cc
parse-dump (array l) t h = cc

abbrev as_object : Value → Option (Map Value)
as_object (object m) = some (map_of m)
as_object _ = none

abbrev as_string : Value → Option Text
as_string (string t) = some t
as_string _ = none

abbrev as_boolean : Value → Option Bool
as_boolean (boolean b) = some b
as_boolean _ = none

abbrev as_array : Value → Option (List Value)
as_array (array l) = some (list_of l)
as_array _ = none

abbrev pub small_json : Json
small_json = record {
  Value = Value;
  parse = parse;
  dump = dump;
  invalid_utf8 = lit "invalid UTF-8";
  not_a_string = lit "type must be string";
  object = λ m. object (members m);
  as_object = as_object;
  string = string;
  as_string = as_string;
  boolean = boolean;
  as_boolean = as_boolean;
  not_a_boolean = lit "type must be boolean";
  not_an_object = lit "cannot use value()";
  array = λ l. array (items l);
  as_array = as_array;
}

pub small_json-laws : JsonLaws small_json
small_json-laws = record {
  parse-dump = parse-dump;
  as_object-object = λ m. ap some (map_of-members m);
  as_string-string = λ t. refl;
  as_boolean-boolean = λ b. refl;
  as_array-array = λ l. ap some (list_of-items l);
}
