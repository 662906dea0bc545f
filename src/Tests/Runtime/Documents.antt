-- ===== src/Tests/Runtime/Documents.antt =====
-- Codecs that know finitely many documents by their texts.
use rbln_container_toolkit.Prelude.{
  String, ◌≡◌, ◌↔◌, refl, ap, Bool, true, false, Option, none, some, [], ◌∷◌, if◌then◌else◌, ◌==◌,
  string_eq, arith, eq_iff, ite, ℕ_discrete,
}
use mathlib.Core.Logic.{if_pos, if_neg}
use mathlib.Core.Option.{some-injective}
use mathlib.Core.Path.{subst}
use text.Mathlib.TextPositions.{eq_refl}
use rbln_container_toolkit.Prelude.Spaces.{trim_space}
use rbln_container_toolkit.Prelude.Int.{ℤ}
use rbln_container_toolkit.Prelude.Dict.{Dict, lookup}
use rbln_container_toolkit.Prelude.Results.{Result, ok, err}
use rbln_container_toolkit.Runtime.Document.{Table, empty, Codec, IsToml, IsJson, Agrees}

unfoldable decided : {P : Type 0} (b : Bool) → (b ≡ true) ↔ P → Dec P
decided true h = yes (h.0 refl)
decided false h = no (λ p. (let bad : false ≡ true = h.1 p in cc))

unfoldable pub string_discrete : Discrete String
unfolding decided
string_discrete s t = decided (s == t) (eq_iff s t)

unfoldable pub ℤ_discrete : Discrete ℤ
unfolding ℕ_discrete
ℤ_discrete = hlevel (ℕ_discrete)

unfoldable pub Table_discrete : Discrete Table
unfolding string_discrete ℤ_discrete
Table_discrete = hlevel (string_discrete, ℤ_discrete)

-- The text of a document.
unfoldable pub text_of : Table → Dict Table → Option String
unfolding Table_discrete
text_of t [] = none
text_of t ((s, u) ∷ known) = let rest = text_of t known in ite (Table_discrete u t) (some s) rest

abbrev pub found : Option String → Result String
found none = err "unknown document"
found (some s) = ok s

abbrev pub parsed : Option Table → Result (Option Table)
parsed none = err "unknown text"
parsed (some t) = ok (some t)

abbrev pub encode_known : Dict Table → Option Table → Result String
unfolding text_of
encode_known known none = ok "null"
encode_known known (some t) = found (text_of t known)

-- A text with nothing but white space is the empty document of TOML.
unfoldable pub toml_of : Dict Table → Codec
unfolding trim_space lookup text_of
toml_of known = record {
  decode = λ s. if trim_space s == "" then ok (some empty) else parsed (lookup s known);
  encode = encode_known known;
}

unfoldable pub json_of : Dict Table → Codec
unfolding lookup text_of
json_of known = record {
  decode = λ s.
      if s == ""
      then err "unexpected end of JSON input"
      else if s == "null"
      then ok none
      else parsed (lookup s known);
  encode = encode_known known;
}

-- The texts are different, and none of them is blank.
abbrev pub AreTexts : Dict Table → Type 0
AreTexts [] = Unit
AreTexts ((s, t) ∷ known) =
    (lookup s known ≡ none)
    × ((trim_space s == "") ≡ false)
    × ((s == "") ≡ false)
    × ((s == "null") ≡ false)
    × AreTexts known

text_of-lookup :
    (known : Dict Table) (t : Table) (s : String)
    → AreTexts known
    → text_of t known ≡ some s
    → (lookup s known ≡ some t)
      × ((trim_space s == "") ≡ false)
      × ((s == "") ≡ false)
      × ((s == "null") ≡ false)
unfolding text_of lookup
text_of-lookup [] t s texts h = ground arith
text_of-lookup ((r, u) ∷ known) t s texts h = elim (Table_discrete u t) [
  | yes same ↦
      let is : r ≡ s = some-injective r s (rw (text_of, if_pos (Table_discrete u t) same) at h) in
      subst
        (λ q.
          (lookup q ((r, u) ∷ known) ≡ some t)
          × ((trim_space q == "") ≡ false)
          × ((q == "") ≡ false)
          × ((q == "null") ≡ false))
        is (rw (lookup, eq_refl r) (ap some same), texts.1, texts.2, texts.3)
  | no other ↦
      let rest =
        text_of-lookup known t s texts.4 (rw (text_of, if_neg (Table_discrete u t) other) at h) in
      (ground (arith, rest.0, texts.0, eq_iff r s), rest.1, rest.2, rest.3)
]

Agrees-refl : (t : Table) → Agrees t t
Agrees-refl t = record { flags = λ path k. refl; lists = λ path k. refl }

found-text : (o : Option String) (s : String) → found o ≡ ok s → o ≡ some s
found-text none s h = ground arith
found-text (some r) s h = ground arith

pub toml_of-IsToml : (known : Dict Table) → AreTexts known → IsToml (toml_of known)
unfolding toml_of
toml_of-IsToml known texts = record {
  reads_back = λ t s h.
      let (there, not_blank, not_empty, not_null) =
        text_of-lookup known t s texts (found-text (text_of t known) s h) in
      (t, rw (toml_of, not_blank, there) refl, Agrees-refl t);
  blank = λ s h. rw (toml_of, h) refl;
}

pub json_of-IsJson : (known : Dict Table) → AreTexts known → IsJson (json_of known)
unfolding json_of
json_of-IsJson known texts = record {
  reads_back = λ t s h.
      let (there, not_blank, not_empty, not_null) =
        text_of-lookup known t s texts (found-text (text_of t known) s h) in
      (t, rw (json_of, not_empty, not_null, there) refl, Agrees-refl t);
  nothing = λ m h. (let bad : err "unexpected end of JSON input" ≡ ok m = h in ground arith);
}
