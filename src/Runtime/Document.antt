-- ===== src/Runtime/Document.antt =====
-- The generic tree that Go decodes TOML and JSON into, `map[string]interface{}`, with the reads and
-- the writes of internal/runtime, and the decoders and encoders, which are other projects' code.
use rbln_container_toolkit.Prelude.{
  String, ◌≡◌, ◌≢◌, refl, ap, Bool, Option, none, some, List, [], ◌∷◌, ◌==◌, string_eq,
  if◌then◌else◌, arith, eq_iff,
}
use text.Mathlib.TextPositions.{eq_refl}
use rbln_container_toolkit.Prelude.Int.{ℤ}
use rbln_container_toolkit.Prelude.Spaces.{trim_space}
use rbln_container_toolkit.Prelude.Results.{Result, ok}

-- `other` is a float, a date or a time, by its text.
mutual
  pub data Value : Type 0 where
    null : Value
    string : String → Value
    flag : Bool → Value
    number : ℤ → Value
    other : String → Value
    items : Values → Value
    table : Table → Value

  pub data Values : Type 0 where
    done : Values
    item : Value → Values → Values

  pub data Table : Type 0 where
    empty : Table
    entry : String → Value → Table → Table

-- `m[k]`
unfoldable pub get : String → Table → Option Value
get k empty = none
get k (entry j v t) = if j == k then some v else get k t

-- `m[k] = v`
unfoldable pub put : String → Value → Table → Table
put k new empty = entry k new empty
put k new (entry j v t) = let rest = put k new t in if j == k then entry k new t else entry j v rest

-- `delete(m, k)`
unfoldable pub delete : String → Table → Table
delete k empty = empty
delete k (entry j v t) = let rest = delete k t in if j == k then rest else entry j v rest

-- `v.(map[string]interface{})`, `v.(bool)`
abbrev pub as_table : Option Value → Option Table
as_table (some (table t)) = some t
as_table _ = none

abbrev pub as_flag : Option Value → Option Bool
as_flag (some (flag b)) = some b
as_flag _ = none

-- The texts of a list, with what is no text skipped.
unfoldable pub texts : Values → List String
texts done = []
texts (item (string s) vs) = s ∷ texts vs
texts (item _ vs) = texts vs

unfoldable pub of_texts : List String → Values
of_texts [] = done
of_texts (s ∷ ss) = item (string s) (of_texts ss)

-- `v.([]interface{})` and the loop over it
abbrev pub as_texts : Option Value → Option (List String)
as_texts (some (items vs)) = some (texts vs)
as_texts _ = none

abbrev pub or_empty_table : Option Table → Table
or_empty_table none = empty
or_empty_table (some t) = t

-- Changes the table at a key, which is made where there is none.
unfoldable pub in_table : String → (Table → Table) → Table → Table
unfolding get put
in_table k change t = put k (table (change (or_empty_table (as_table (get k t))))) t

-- The value behind a path of tables, as far as there is one.
unfoldable pub get_in : List String → String → Table → Option Value
unfolding get
get_in [] k t = get k t
get_in (j ∷ js) k t = elim (as_table (get j t)) [ none ↦ none | some u ↦ get_in js k u ]

-- `Unmarshal` and `Marshal`; `none` is a nil map, which the JSON value `null` is read into.
pub record Codec : Type 0 where
  pub decode : String → Result (Option Table)
  pub encode : Option Table → Result String

-- What an encoder has written its decoder reads back, by value: every setting that is a Boolean or
-- a list of texts is as it was. The order of keys may differ.
pub record Agrees (t u : Table) : Type 0 where
  pub flags :
      (path : List String) (k : String) → as_flag (get_in path k u) ≡ as_flag (get_in path k t)
  pub lists :
      (path : List String) (k : String) → as_texts (get_in path k u) ≡ as_texts (get_in path k t)

abbrev pub ReadsBack : Codec → Type 0
ReadsBack codec =
    (t : Table) (written : String)
    → codec.encode (some t) ≡ ok written
    → (u : Table) × (codec.decode written ≡ ok (some u)) × Agrees t u

-- TOML: a text with nothing but white space is an empty document.
pub record IsToml (codec : Codec) : Type 0 where
  pub reads_back : ReadsBack codec
  pub blank : (s : String) → trim_space s ≡ "" → codec.decode s ≡ ok (some empty)

-- JSON: an empty text is an error.
pub record IsJson (codec : Codec) : Type 0 where
  pub reads_back : ReadsBack codec
  pub nothing : (m : Option Table) → codec.decode "" ≢ ok m

pub get-put :
    (k j : String) (v : Value) (t : Table)
    → get j (put k v t) ≡ (if k == j then some v else get j t)
unfolding get put
get-put k j v empty = refl
get-put k j v (entry i w t) = ground (arith, get-put k j v t, eq_iff i j, eq_iff i k, eq_iff k j)

pub get-delete :
    (k j : String) (t : Table) → get j (delete k t) ≡ (if k == j then none else get j t)
unfolding get delete
get-delete k j empty = ground arith
get-delete k j (entry i w t) = ground (arith, get-delete k j t, eq_iff i j, eq_iff i k, eq_iff k j)

pub texts-of_texts : (ss : List String) → texts (of_texts ss) ≡ ss
unfolding texts of_texts
texts-of_texts [] = refl
texts-of_texts (s ∷ ss) = ap (λ rest. s ∷ rest) (texts-of_texts ss)

-- A change below a key is seen through that key.
pub get_in-in_table :
    (j : String) (js : List String) (k : String) (change : Table → Table) (t : Table)
    → get_in (j ∷ js) k (in_table j change t)
      ≡ get_in js k (change (or_empty_table (as_table (get j t))))
unfolding get_in in_table
get_in-in_table j js k change t =
    rw
      (
        get_in,
        in_table,
        get-put j j (table (change (or_empty_table (as_table (get j t))))) t,
        eq_refl j,
      )
      refl
