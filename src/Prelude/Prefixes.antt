-- ===== src/Prelude/Prefixes.antt =====
-- A text that has a prefix is that prefix and the rest.
use Prim.Native.Char.{code}
use Prim.Native.String.{String, ◌++◌ as ◌<>◌}
use mathlib.Core.Path.{◌≡◌, ap, sym, ◌∙◌, subst}
use mathlib.Core.Logic.{inl, inr}
use mathlib.Core.Bool.{true}
use mathlib.Core.Option.{none, some, some-injective}
use native.Mathlib.Omega.{arith}
use text.Mathlib.TextEquality.{Char-path}
use text.Mathlib.TextLemmas.{cons-append, nil-append}
use rbln_container_toolkit.Prelude.Tests.{nat_beq, nat_beq_iff, Bool-cases}
use rbln_container_toolkit.Prelude.Texts.{cut_prefix, contains_text}

pub cut_prefix-rest : (s p rest : String) → cut_prefix s p ≡ some rest → s ≡ p <> rest
unfolding cut_prefix
cut_prefix-rest s String.[] rest h =
    let same : s ≡ rest = some-injective s rest h in same ∙ sym (nil-append rest)
cut_prefix-rest String.[] (String.◌∷◌ d p) rest h = ground arith
cut_prefix-rest (String.◌∷◌ c s) (String.◌∷◌ d p) rest h =
    elim (Bool-cases (nat_beq (code c) (code d))) [
      | inl same ↦
          let tail = cut_prefix-rest s p rest (rw same at h) in
          let head = Char-path c d ((nat_beq_iff (code c) (code d)).0 same) in
          ap (λ r. String.◌∷◌ c r) tail
          ∙ (ap (λ e. String.◌∷◌ e (p <> rest)) head ∙ sym (cons-append d p rest))
      | inr other ↦ (let bad : none ≡ some rest = rw other at h in ground arith)
    ]

-- What is put in front of a text does not hide what it contains.
pub contains_text-append :
    (a s p : String) → contains_text s p ≡ true → contains_text (a <> s) p ≡ true
unfolding contains_text
contains_text-append String.[] s p h = subst (λ t. contains_text t p ≡ true) (sym (nil-append s)) h
contains_text-append (String.◌∷◌ c a) s p h =
    subst (λ t. contains_text t p ≡ true) (sym (cons-append c a s))
      (ground (arith, contains_text-append a s p h))
